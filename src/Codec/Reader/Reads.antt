-- ===== src/Codec/Reader/Reads.antt =====
-- `Reads m bytes a`: wherever these bytes lie ahead of the cursor, the decoder `m` returns `a` and
-- stands behind them, whatever follows. One rule for each way to build a decoder.
use arbordb.Common.{
  ℕ, zero, suc, ◌+◌, ◌^◌, ◌<◌, ◌≡◌, refl, sym, ap, ◌∙◌, subst, List, [], ◌∷◌, ◌++◌, length,
  length-append, append_assoc, append-nil, take-append_length, drop, arith, ok, All,
}
use arbordb.Common.Lists
use arbordb.Common.Be.{be, from_be, length-be, from_be-be}
use arbordb.Codec.Read.{head}
use arbordb.Codec.Reader.{
  Reader, new, Decoder, pure, ◌>>=◌, take, u8, u32, u64, array, bytes, repeat,
}

-- What lies ahead of the cursor.
pub record Ahead (r : Reader) (rest : List ℕ) : Type 0 where
  pub rest_eq : drop r.pos r.buf ≡ rest
  pub length_eq : r.pos + length rest ≡ length r.buf
  pub small : length r.buf < 2 ^ 64

abbrev pub advance : ℕ → Reader → Reader
advance n r = record r { pos = r.pos + n }

pub record Reads {ℓ} {A : Type ℓ} (m : Decoder A) (bs : List ℕ) (a : A) : Type ℓ where
  pub at : (r : Reader) (rest : List ℕ) → Ahead r (bs ++ rest) → m r ≡ ok (a, advance (length bs) r)

pub Ahead-new : (buf : List ℕ) → length buf < 2 ^ 64 → Ahead (new buf) buf
Ahead-new buf h = record { rest_eq = refl; length_eq = omega arith; small = h }

drop-add : (n m : ℕ) (xs : List ℕ) → drop (n + m) xs ≡ drop m (drop n xs)
drop-add zero m xs = ap (λ (k : ℕ). drop k xs) (zero_add m)
  where
    zero_add : (m : ℕ) → 0 + m ≡ m
    zero_add m = omega arith
drop-add (suc n) m [] = rw (suc_add n m) (sym (drop-nil m))
  where
    suc_add : (n m : ℕ) → suc n + m ≡ suc (n + m)
    suc_add n m = omega arith

    drop-nil : (m : ℕ) → drop m (let e : List ℕ = [] in e) ≡ []
    drop-nil zero = refl
    drop-nil (suc m) = refl
drop-add (suc n) m (x ∷ xs) = rw (suc_add n m) (drop-add n m xs)
  where
    suc_add : (n m : ℕ) → suc n + m ≡ suc (n + m)
    suc_add n m = omega arith

pub Ahead-advance :
    (r : Reader) (bs rest : List ℕ) → Ahead r (bs ++ rest) → Ahead (advance (length bs) r) rest
Ahead-advance r bs rest h = record {
  rest_eq = drop-add r.pos (length bs) r.buf ∙ rw h.rest_eq (Lists.drop-append_length bs rest);
  length_eq = omega (arith, length-append bs rest, h.length_eq);
  small = h.small;
}

module _ {ℓ} {A : Type ℓ} where
  pub Reads-pure : (a : A) → Reads (pure a) [] a
  Reads-pure a = record {
    at = λ r rest h. ap (λ (n : ℕ). ok (a, record r { pos = n })) (add_zero r.pos);
  }
    where
      add_zero : (n : ℕ) → n ≡ n + 0
      add_zero n = omega arith

module _ {ℓ κ} {A : Type ℓ} {B : Type κ} where
  pub Reads-bind :
      (m : Decoder A) (f : A → Decoder B) (bs cs : List ℕ) (a : A) (b : B)
      → Reads m bs a
      → Reads (f a) cs b
      → Reads (m >>= f) (bs ++ cs) b
  Reads-bind m f bs cs a b hm hf = record { at = λ r rest h. run r rest (rw append_assoc at h) }
    where
      total : (p : ℕ) → p + length bs + length cs ≡ p + length (bs ++ cs)
      total p = omega (arith, length-append bs cs)

      run :
          (r : Reader) (rest : List ℕ)
          → Ahead r (bs ++ (cs ++ rest))
          → (m >>= f) r ≡ ok (b, advance (length (bs ++ cs)) r)
      run r rest h =
          rw (hm.at r (cs ++ rest) h, ◌>>=◌)
            (hf.at (advance (length bs) r) rest (Ahead-advance r bs (cs ++ rest) h)
              ∙ ap (λ (n : ℕ). ok (b, record r { pos = n })) (total r.pos))

pub Reads-take : (bs : List ℕ) → Reads (take (length bs)) bs bs
unfolding take
Reads-take bs = record { at = λ r rest h. step r rest h }
  where
    step :
        (r : Reader) (rest : List ℕ)
        → Ahead r (bs ++ rest)
        → take (length bs) r ≡ ok (bs, advance (length bs) r)
    step r rest h =
        let e = h.rest_eq in
        let cut : Lists.take (length bs) (drop r.pos r.buf) ≡ bs =
          rw e (take-append_length bs rest) in
        ground (arith, cut, length-append bs rest, h.length_eq, h.small)

pub Reads-array : (bs : List ℕ) → Reads (array (length bs)) bs bs
unfolding array
Reads-array = Reads-take

pub Reads-along {ℓ} :
    {A : Type ℓ} (m : Decoder A) {bs cs : List ℕ} (a : A) → bs ≡ cs → Reads m bs a → Reads m cs a
Reads-along m a e h = subst (λ xs. Reads m xs a) e h

-- A decoder that reads a run of fixed length and then maps it.
pub Reads-map {ℓ} :
    {A : Type ℓ} (n : ℕ) (f : List ℕ → A) (bs : List ℕ)
    → length bs ≡ n
    → Reads (take n >>= λ b. pure (f b)) bs (f bs)
Reads-map n f bs e = Reads-along _ (f bs) (append-nil bs) (
    Reads-bind (take n) (λ b. pure (f b)) bs [] bs (f bs)
      (subst (λ k. Reads (take k) bs bs) e (Reads-take bs)) (Reads-pure (f bs)))

pub Reads-u8 : (b : ℕ) → Reads u8 (b ∷ []) b
unfolding u8
Reads-u8 b = Reads-map 1 head (b ∷ []) refl

pub Reads-u32 : (v : ℕ) → v < 2 ^ 32 → Reads u32 (be 4 v) v
unfolding u32
Reads-u32 v h = rw (from_be-be 4 v h) at (Reads-map 4 from_be (be 4 v) (length-be 4 v))

pub Reads-u64 : (v : ℕ) → v < 2 ^ 64 → Reads u64 (be 8 v) v
unfolding u64
Reads-u64 v h = rw (from_be-be 8 v h) at (Reads-map 8 from_be (be 8 v) (length-be 8 v))

-- A length-prefixed run, as `put_bytes` writes it.
pub Reads-bytes : (bs : List ℕ) → length bs < 2 ^ 32 → Reads bytes (be 4 (length bs) ++ bs) bs
unfolding bytes
Reads-bytes bs h =
    Reads-bind u32 take (be 4 (length bs)) bs (length bs) bs (Reads-u32 (length bs) h)
      (Reads-take bs)

-- The encodings of the items, one after the other.
abbrev pub concat_map {ℓ} : {A : Type ℓ} → (A → List ℕ) → List A → List ℕ
concat_map enc [] = []
concat_map enc (x ∷ xs) = enc x ++ concat_map enc xs

module _ {ℓ} {A : Type ℓ} (item : Decoder A) (enc : A → List ℕ) where
  pub Reads-repeat :
      (xs : List A)
      → All (λ x. Reads item (enc x) x) xs
      → Reads (repeat item (length xs)) (concat_map enc xs) xs
  unfolding repeat
  Reads-repeat [] h = Reads-pure []
  Reads-repeat (x ∷ xs) h = Reads-bind item _ (enc x) (concat_map enc xs) x (x ∷ xs) h.0 (
      Reads-along _ (x ∷ xs) (append-nil (concat_map enc xs)) (
        Reads-bind (repeat item (length xs)) _ (concat_map enc xs) [] xs (x ∷ xs)
          (Reads-repeat xs h.1) (Reads-pure (x ∷ xs))))
