-- ===== src/Delta/Codec/Refer.antt =====
-- The references to paths, as the encoder makes them and the decoder finds them.
use livi_agent.Prelude.{
  ℕ, suc, ◌<◌, true, false, none, some, [], ◌∷◌, nat_eq, list_eq, ◌≡◌, refl, sym, ◌∙◌, subst, inl,
  inr, arith, Bool-cases, Option-cases, contains,
}
use livi_agent.Prelude.Assoc
use livi_agent.Prelude.Assoc.{put}
use livi_agent.Delta.{seg_eq, JsonPath, ok, assert_safe_path}
use livi_agent.Delta.Codec.{
  WireOp, inline, id, Encoder, Reference, refer, Decoder, assert_valid_ref, resolve_ref, decode_op,
  decode_ops,
}

-- The ids of the encoder are those that the decoder knows, and the last path is the same.
abbrev pub KnowsIds : Encoder → Decoder → Type 0
KnowsIds c d =
    (p : JsonPath) (i : ℕ)
    → Assoc.get c.ids p ≡ some i
    → (i < c.next_id) × (Assoc.get d.paths i ≡ some p)

KnowsIds-put :
    (c : Encoder) (d : Decoder) (path : JsonPath)
    → KnowsIds c d
    → KnowsIds
        (record c { ids = put c.ids path c.next_id; next_id = suc c.next_id })
        (record d { paths = put d.paths c.next_id path })
KnowsIds-put c d path k p i h = elim (Assoc.get-put-some c.ids path p c.next_id i h) [
  | inl (e, n) ↦ rw (sym e, sym n) (omega arith, Assoc.get-put_same d.paths c.next_id path)
  | inr (e, g) ↦ (
    omega (arith, (k p i g).0),
    Assoc.get-put_ne d.paths c.next_id i path (omega (arith, (k p i g).0)) ∙ (k p i g).1,
  )
]

-- After its definition a reference stands for the path, and the decoder knows the encoder's ids.
abbrev pub Resolves : Decoder → JsonPath → Reference → Type 0
Resolves d path r =
    (d' : Decoder) × (decode_ops d r.definition ≡ ok (d', []))
    × (assert_valid_ref (some r.ref) ≡ ok tt)
    × (resolve_ref d' (some r.ref) ≡ ok path)
    × KnowsIds r.encoder d'

refer_known :
    (c : Encoder) (path : JsonPath) (i : ℕ)
    → Assoc.get c.ids path ≡ some i
    → refer c path ≡ record { encoder = c; definition = []; ref = id i }
unfolding refer
refer_known c path i h = ground (arith, h)

refer_second :
    (c : Encoder) (path : JsonPath)
    → Assoc.get c.ids path ≡ none
    → contains path c.seen ≡ true
    → refer c path ≡ record {
      encoder = record c { ids = put c.ids path c.next_id; next_id = suc c.next_id };
      definition = WireOp.define c.next_id path ∷ [];
      ref = id c.next_id;
    }
unfolding refer
refer_second c path h n = ground (arith, h, n)

refer_first :
    (c : Encoder) (path : JsonPath)
    → Assoc.get c.ids path ≡ none
    → contains path c.seen ≡ false
    → refer c path
      ≡ record { encoder = record c { seen = path ∷ c.seen }; definition = []; ref = inline path }
unfolding refer
refer_first c path h n = ground (arith, h, n)

decode_ops_define :
    (d : Decoder) (i : ℕ) (path : JsonPath)
    → assert_safe_path path ≡ ok tt
    → decode_ops d (WireOp.define i path ∷ []) ≡ ok (record d { paths = put d.paths i path }, [])
unfolding decode_ops decode_op
decode_ops_define d i path s = rw s refl

pub refer-Resolves :
    (c : Encoder) (d : Decoder) (path : JsonPath)
    → KnowsIds c d
    → assert_safe_path path ≡ ok tt
    → Resolves d path (refer c path)
unfolding decode_ops assert_valid_ref resolve_ref
refer-Resolves c d path k s = elim (Option-cases (Assoc.get c.ids path)) [
  | inr (i, e) ↦
      subst (Resolves d path) (sym (refer_known c path i e))
        (d, refl, refl, rw ((k path i e).1) refl, k)
  | inl e ↦ elim (Bool-cases (contains path c.seen)) [
    | inl n ↦ subst (Resolves d path) (sym (refer_second c path e n)) (
      record d { paths = put d.paths c.next_id path },
      decode_ops_define d c.next_id path s,
      refl,
      rw (Assoc.get-put_same d.paths c.next_id path) refl,
      KnowsIds-put c d path k,
    )
    | inr n ↦ subst (Resolves d path) (sym (refer_first c path e n)) (d, refl, s, refl, k)
  ]
]
