-- ===== src/Protocol/Cbor/Containers.antt =====
-- Arrays and maps in packages/protocol/src/cbor: their bytes and the reading of these.
use livi_agent.Prelude.{
  ℕ, suc, ◌+◌, ◌≤◌, ◌≡◌, refl, sym, subst, false, List, [], ◌∷◌, ◌++◌, leb, arith, contains,
  list_eq, nat_eq, append_assoc, append-nil,
}
use livi_agent.Protocol.Framing.{Bytes}
use livi_agent.Protocol.Cbor.{
  ok, Options, Platform, Text, Value, Items, Fields, text, array, map, nil, cons, end, field,
  container_too_long,
}
use livi_agent.Protocol.Cbor.Writer.{
  Writer, IsWriter, Appends, >>=-eq-ok, guard-eq-ok, ok-injective,
}
use livi_agent.Protocol.Cbor.Arguments.{write_argument-Head}
use livi_agent.Protocol.Cbor.Encoder.{
  write_argument, encode_body, encode_items, encode_fields, count_items, count_entries,
}
use livi_agent.Protocol.Cbor.Decoder.{read_items, read_fields, read_major, as_key}
use livi_agent.Protocol.Cbor.Clean.{IsResolved}
use livi_agent.Protocol.Cbor.Leaves.{Reads, item, Written, Head-Written, read_length-Head}

module _ (p : Platform) (o : Options) where
  pub Appends-ok : (w w' : Writer) → IsWriter w → ok w ≡ ok w' → Appends w w' []
  Appends-ok w w' u e =
      subst (λ x. Appends w x []) (ok-injective e)
        (record { appended = sym (append-nil w.written); same_limit = refl; valid = u })

  -- What an array's and a map's entries read as.
  abbrev pub ReadsItems : Items → ℕ → ℕ → Bytes → Type 0
  ReadsItems vs n depth bs =
      (fuel : ℕ) (rest : Bytes)
      → o.max_depth + 2 ≤ fuel + depth
      → read_items (item p o fuel depth) n (bs ++ rest) ≡ ok (vs, rest)

  abbrev pub ReadsFields : Fields → ℕ → List Text → ℕ → Bytes → Type 0
  ReadsFields fs n keys depth bs =
      (fuel : ℕ) (rest : Bytes)
      → o.max_depth + 2 ≤ fuel + depth
      → read_fields (item p o fuel depth) n keys (bs ++ rest) ≡ ok (fs, rest)

  pub reads_nil :
      (fuel depth : ℕ) (rest : Bytes) → read_items (item p o fuel depth) 0 rest ≡ ok (nil, rest)
  unfolding read_items
  reads_nil fuel depth rest = refl

  pub reads_end :
      (fuel depth : ℕ) (keys : List Text) (rest : Bytes)
      → read_fields (item p o fuel depth) 0 keys rest ≡ ok (end, rest)
  unfolding read_fields
  reads_end fuel depth keys rest = refl

  pub items_cons :
      (v : Value) (vs : Items) (n depth : ℕ) (xs ys : Bytes)
      → Reads p o v depth xs
      → ReadsItems vs n depth ys
      → ReadsItems (cons v vs) (suc n) depth (xs ++ ys)
  unfolding read_items
  items_cons v vs n depth xs ys first others fuel rest enough =
      rw (append_assoc xs ys rest)
        (rw (first fuel (ys ++ rest) enough) (rw (others fuel rest enough)))

  pub fields_field :
      (k : Text) (v : Value) (fs : Fields) (n depth : ℕ) (keys : List Text) (ks xs ys : Bytes)
      → contains k keys ≡ false
      → Reads p o (text k) depth ks
      → Reads p o v depth xs
      → ReadsFields fs n (k ∷ keys) depth ys
      → ReadsFields (field k v fs) (suc n) keys depth (ks ++ (xs ++ ys))
  unfolding read_fields as_key
  fields_field k v fs n depth keys ks xs ys new key value others fuel rest enough =
      rw (append_assoc ks (xs ++ ys) rest) (
        rw (key fuel ((xs ++ ys) ++ rest) enough) (
          rw new (
            rw (append_assoc xs ys rest)
              (rw (value fuel (ys ++ rest) enough) (rw (others fuel rest enough))))))

  pub array-Written :
      (xs : Items) (vs : Items) (depth : ℕ) (w w' : Writer)
      → IsResolved o
      → depth ≤ o.max_depth
      → IsWriter w
      → encode_body p o (array xs) depth w ≡ ok w'
      → ((w1 : Writer)
          → IsWriter w1
          → encode_items p o xs (depth + 1) w1 ≡ ok w'
          → (bs : Bytes) × Appends w1 w' bs × ReadsItems vs (count_items xs) (depth + 1) bs)
      → Written p o (array vs) depth w w'
  unfolding encode_body read_major
  array-Written xs vs depth w w' limits le u e entries =
      let n = count_items xs in
      let (fits, f) = guard-eq-ok (leb n o.max_container_length) container_too_long _ e in
      let (w1, g, h) = >>=-eq-ok (write_argument 4 n w) (encode_items p o xs (depth + 1)) f in
      let small : n ≤ o.max_container_length = ground arith in
      let hd =
        write_argument-Head 4 n w w1 (omega arith) (omega (arith, limits.container_limit)) u g in
      let (bs, a, r) = entries w1 hd.wrote.valid h in
      Head-Written p o (array vs) depth 4 n w w1 w' bs hd le a λ fuel rest enough.
        rw
          (read_length-Head 4 n o.max_container_length w w1 container_too_long (bs ++ rest) hd
            small)
          (rw (r fuel rest (omega arith)))

  pub map-Written :
      (fs vs : Fields) (depth : ℕ) (w w' : Writer)
      → IsResolved o
      → depth ≤ o.max_depth
      → IsWriter w
      → encode_body p o (map fs) depth w ≡ ok w'
      → ((w1 : Writer)
          → IsWriter w1
          → encode_fields p o fs (depth + 1) w1 ≡ ok w'
          → (bs : Bytes) × Appends w1 w' bs × ReadsFields vs (count_entries fs) [] (depth + 1) bs)
      → Written p o (map vs) depth w w'
  unfolding encode_body read_major
  map-Written fs vs depth w w' limits le u e entries =
      let n = count_entries fs in
      let (fits, f) = guard-eq-ok (leb n o.max_container_length) container_too_long _ e in
      let (w1, g, h) = >>=-eq-ok (write_argument 5 n w) (encode_fields p o fs (depth + 1)) f in
      let small : n ≤ o.max_container_length = ground arith in
      let hd =
        write_argument-Head 5 n w w1 (omega arith) (omega (arith, limits.container_limit)) u g in
      let (bs, a, r) = entries w1 hd.wrote.valid h in
      Head-Written p o (map vs) depth 5 n w w1 w' bs hd le a λ fuel rest enough.
        rw
          (read_length-Head 5 n o.max_container_length w w1 container_too_long (bs ++ rest) hd
            small)
          (rw (r fuel rest (omega arith)))
