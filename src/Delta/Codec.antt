-- ===== src/Delta/Codec.antt =====
-- The codec of packages/chord/src/delta/index.ts: interned paths and omitted paths.
-- `JSON.stringify` of a path names the path, so paths are the keys of the encoder's tables.
pub mod Refer
pub mod RoundTrip
pub mod Relay
mod Tests
use livi_agent.Prelude.{
  ℕ, suc, Bool, true, false, not, ◌&&◌, Option, none, some, List, [], ◌∷◌, ◌++◌, nat_eq, list_eq,
  ◌==◌, contains, if◌then◌else◌,
}
use livi_agent.Prelude.Assoc
use livi_agent.Prelude.Assoc.{Assoc, put}
use livi_agent.Delta.{
  Json, Seg, seg_eq, JsonPath, Edit, Op, Result, ok, err, DeltaError, path_error, ◌>>=◌, ◌>>◌,
  assert_safe_path, is_splice, is_empty_path,
}

pub data PathRef : Type 0 where
  inline : JsonPath → PathRef
  id : ℕ → PathRef

-- `none` is the shortened tuple, without a reference.
pub data WireOp : Type 0 where
  replace : Json → WireOp
  change : Option PathRef → Edit → WireOp
  define : ℕ → JsonPath → WireOp

pub record Encoder : Type 0 where
  pub seen : List JsonPath
  pub ids : Assoc JsonPath ℕ
  pub next_id : ℕ
  pub previous : Option JsonPath

unfoldable pub encoder : Encoder
encoder = record { seen = []; ids = []; next_id = 0; previous = none }

-- The reference to a path that is not the previous one, and the definition that goes before it.
pub record Reference : Type 0 where
  pub encoder : Encoder
  pub definition : List WireOp
  pub ref : PathRef

unfoldable pub refer : Encoder → JsonPath → Reference
refer c path = elim (Assoc.get c.ids path) [
  | some i ↦ record { encoder = c; definition = []; ref = id i }
  | none ↦
      if contains path c.seen
      then record {
        encoder = record c { ids = put c.ids path c.next_id; next_id = suc c.next_id };
        definition = WireOp.define c.next_id path ∷ [];
        ref = id c.next_id;
      }
      else record {
        encoder = record c { seen = path ∷ c.seen };
        definition = [];
        ref = inline path;
      }
]

abbrev pub is_previous : Option JsonPath → JsonPath → Bool
is_previous none path = false
is_previous (some p) path = p == path

unfoldable pub encode_op : Encoder → Op → Encoder × List WireOp
unfolding refer encoder
encode_op c (Op.replace v) = (encoder, WireOp.replace v ∷ [])
encode_op c (Op.change path e) =
    let r = refer c path in
    if is_previous c.previous path then (c, WireOp.change none e ∷ []) else (
      record (r.encoder) { previous = some path },
      r.definition ++ WireOp.change (some r.ref) e ∷ [],
    )

unfoldable pub encode_ops : Encoder → List Op → Encoder × List WireOp
unfolding encode_op
encode_ops c [] = (c, [])
encode_ops c (op ∷ ops) =
    let (c', out) = encode_op c op in let (c'', rest) = encode_ops c' ops in (c'', out ++ rest)

unfoldable pub encode : Encoder → List Op → Encoder × List WireOp
unfolding encode_ops
encode c ops = encode_ops (record c { previous = none }) ops

pub record Decoder : Type 0 where
  pub paths : Assoc ℕ JsonPath
  pub previous : Option JsonPath

unfoldable pub decoder : Decoder
decoder = record { paths = []; previous = none }

-- The check of the reference in `assertValidWireOp`.
unfoldable pub assert_valid_ref : Option PathRef → Result (Unit {0})
assert_valid_ref (some (inline path)) = assert_safe_path path
assert_valid_ref _ = ok tt

abbrev pub found : Option JsonPath → Result JsonPath
found none = err path_error
found (some path) = ok path

unfoldable pub resolve_ref : Decoder → Option PathRef → Result JsonPath
resolve_ref d none = found d.previous
resolve_ref d (some (inline path)) = ok path
resolve_ref d (some (id i)) = found (Assoc.get d.paths i)

abbrev pub targeted : JsonPath → Edit → Result Op
targeted path e =
    if not (is_splice e) && is_empty_path path then err path_error else ok (Op.change path e)

unfoldable pub decode_op : Decoder → WireOp → Result (Decoder × List Op)
unfolding assert_valid_ref resolve_ref is_splice assert_safe_path decoder
decode_op d (WireOp.define i path) = do
  assert_safe_path path
  ok (record d { paths = put d.paths i path }, [])
decode_op d (WireOp.replace v) = ok (decoder, Op.replace v ∷ [])
decode_op d (WireOp.change ref e) = do
  assert_valid_ref ref
  path ← resolve_ref d ref
  op ← targeted path e
  ok (record d { previous = some path }, op ∷ [])

unfoldable pub decode_ops : Decoder → List WireOp → Result (Decoder × List Op)
unfolding decode_op
decode_ops d [] = ok (d, [])
decode_ops d (w ∷ ws) = do
  (d', out) ← decode_op d w
  (d'', rest) ← decode_ops d' ws
  ok (d'', out ++ rest)

unfoldable pub decode : Decoder → List WireOp → Result (Decoder × List Op)
unfolding decode_ops
decode d wire = decode_ops (record d { previous = none }) wire
