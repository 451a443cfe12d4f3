-- ===== src/Inode/RoundTrip.antt =====
-- An inode is read back as it was written, the sections that this build does not know among the rest.
use arbordb.Common.{
  ℕ, ◌%◌, ◌^◌, ◌<◌, ◌≡◌, refl, sym, ap, subst, ◌∙◌, List, [], ◌∷◌, ◌++◌, append_assoc, append-nil,
  Option, none, some, length, length-append, Result, ok, err, All, arith,
}
use arbordb.Common.Be.{small_mod, be, length-be}
use arbordb.Codec.Putters.{put_bytes, put_u32}
use arbordb.Codec.Reader.{Decoder, Reader, pure, lift, u8, u64, bytes, new}
use arbordb.Codec.Reader.Reads.{
  Reads, Reads-bind, Reads-pure, Reads-u8, Reads-u64, Reads-bytes, Reads-along, Ahead-new,
}
use arbordb.Acl.{Acl}
use arbordb.Acl
use arbordb.Acl.RoundTrip.{decode_acl-encode}
use arbordb.Inode.Node.{
  UnderlyingTimestamps, read_timestamps, decode_timestamps, encode_timestamps, Section, Inode,
  default, add_section, read_sections, read_inode, decode, section_of, section_timestamps,
  section_acl, section_mac, section_sig, self, sections, put_sections, encode, TimestampsValid,
  Holds, AclValid, IsArray, IsExtra, IsValid,
}

Reads-timestamps :
    (times : UnderlyingTimestamps)
    → TimestampsValid times
    → Reads read_timestamps (encode_timestamps times) times
unfolding read_timestamps encode_timestamps
Reads-timestamps times valid =
    Reads-along _ times
      (sym (append_assoc (be 8 times.created) (be 8 times.modified) (be 8 times.accessed)))
      (Reads-bind u64 _ (be 8 times.created) (be 8 times.modified ++ be 8 times.accessed)
        times.created times (Reads-u64 times.created valid.0)
        (Reads-bind u64 _ (be 8 times.modified) (be 8 times.accessed) times.modified times
          (Reads-u64 times.modified valid.1)
          (Reads-along _ times (append-nil (be 8 times.accessed)) (
            Reads-bind u64 _ (be 8 times.accessed) [] times.accessed times
              (Reads-u64 times.accessed valid.2) (Reads-pure times)))))

-- A decoder that reads a whole buffer.
pub run_whole {ℓ} :
    {A : Type ℓ} (m : Decoder A) (bs : List ℕ) (a : A)
    → length bs < 2 ^ 64
    → Reads m bs a
    → (r : Reader) × (m (new bs) ≡ ok (a, r))
run_whole m bs a small h =
    let read = h.at (new bs) [] (rw (append-nil bs) (Ahead-new bs small)) in (_, read)

length-timestamps : (times : UnderlyingTimestamps) → length (encode_timestamps times) ≡ 24
unfolding encode_timestamps
length-timestamps times = omega (
  arith,
  length-append (be 8 times.created ++ be 8 times.modified) (be 8 times.accessed),
  length-append (be 8 times.created) (be 8 times.modified),
  length-be 8 times.created,
  length-be 8 times.modified,
  length-be 8 times.accessed,
)

timestamps_lem :
    (times : UnderlyingTimestamps)
    → TimestampsValid times
    → decode_timestamps (encode_timestamps times) ≡ ok times
unfolding decode_timestamps
timestamps_lem times valid =
    let (r, e) =
      run_whole read_timestamps (encode_timestamps times) times
        (omega (arith, length-timestamps times)) (Reads-timestamps times valid) in
    rw (decode_timestamps, e)

acl_lem : (acl : Acl) → AclValid acl → Acl.decode (Acl.encode acl) ≡ ok acl
acl_lem acl valid =
    ap Acl.decode (sym (append-nil (Acl.encode acl)))
    ∙ decode_acl-encode acl [] valid.0 (rw (append-nil (Acl.encode acl)) (omega arith))

-- The sections one after the other, as `decode` takes them in.
fold_sections : Inode → List Section → Result Inode
fold_sections inode [] = ok inode
fold_sections inode ((tag, body) ∷ rest) = elim (add_section inode tag body) [
  | ok next ↦ fold_sections next rest
  | err e ↦ err e
]

section_bytes : List Section → List ℕ
section_bytes [] = []
section_bytes ((tag, body) ∷ rest) = tag ∷ ((be 4 (length body) ++ body) ++ section_bytes rest)

abbrev Short : Section → Type 0
Short (tag, body) = length body < 2 ^ 32

ok-injective : (a b : Inode) → ok a ≡ ok b → a ≡ b
ok-injective a b e = ap (λ r. elim r [ ok i ↦ i | err _ ↦ a ]) e

-- What a fold that ends well did with its first section.
fold_first :
    (inode result : Inode) (tag : ℕ) (body : List ℕ) (rest : List Section)
    → fold_sections inode ((tag, body) ∷ rest) ≡ ok result
    → (next : Inode) × (add_section inode tag body ≡ ok next)
      × (fold_sections next rest ≡ ok result)
unfolding fold_sections
fold_first inode result tag body rest e = go (add_section inode tag body) refl e
  where
    go :
        (o : Result Inode)
        → add_section inode tag body ≡ o
        → elim o [ ok next ↦ fold_sections next rest | err f ↦ err f ] ≡ ok result
        → (next : Inode) × (add_section inode tag body ≡ ok next)
          × (fold_sections next rest ≡ ok result)
    go (ok next) f g = (next, f, g)
    go (err x) f g = cc

Reads-read_sections :
    (inode result : Inode) (ss : List Section)
    → All Short ss
    → fold_sections inode ss ≡ ok result
    → Reads (read_sections (length ss) inode) (section_bytes ss) result
unfolding read_sections fold_sections section_bytes
Reads-read_sections inode result [] short e =
    subst (Reads (pure inode) []) (ok-injective inode result e) (Reads-pure inode)
Reads-read_sections inode result ((tag, body) ∷ rest) short e =
    let (next, added, further) = fold_first inode result tag body rest e in
    Reads-bind u8 _ (tag ∷ []) ((be 4 (length body) ++ body) ++ section_bytes rest) tag result
      (Reads-u8 tag)
      (Reads-bind bytes _ (be 4 (length body) ++ body) (section_bytes rest) body result
        (Reads-bytes body short.0)
        (Reads-bind (lift (add_section inode tag body)) _ [] (section_bytes rest) next result
          (rw added (Reads-pure next)) (Reads-read_sections next result rest short.1 further)))

put_sections_lem :
    (out : List ℕ) (ss : List Section)
    → All Short ss
    → put_sections out ss ≡ out ++ section_bytes ss
unfolding put_sections section_bytes put_bytes put_u32
put_sections_lem out [] short = sym (append-nil out)
put_sections_lem out ((tag, body) ∷ rest) short =
    put_sections_lem (put_bytes (out ++ tag ∷ []) body) rest short.1
    ∙ rw (small_mod (length body) short.0) (simp append_assoc)

-- Taking in the sections that `encode` writes rebuilds the inode.
fold-extra :
    (inode : Inode) (ss : List Section)
    → All IsExtra ss
    → fold_sections inode ss ≡ ok (record inode { extra = inode.extra ++ ss })
unfolding fold_sections
fold-extra inode [] h =
    ap (λ (x : List Section). ok (record inode { extra = x })) (sym (append-nil inode.extra))
fold-extra inode ((tag, body) ∷ rest) h =
    let added : add_section inode tag body
        ≡ ok (record inode { extra = inode.extra ++ (tag, body) ∷ [] }) =
      unfold add_section in ground (arith, h.0.0) in
    rw (fold_sections, added)
      (fold-extra (record inode { extra = inode.extra ++ (tag, body) ∷ [] }) rest h.1
        ∙ simp append_assoc)

fold-section_of {ℓ} :
    {A : Type ℓ} (set : Option A → Inode) (tag : ℕ) (enc : A → List ℕ) (o : Option A)
    (rest : List Section)
    → ((a : A) → o ≡ some a → add_section (set none) tag (enc a) ≡ ok (set (some a)))
    → fold_sections (set none) (section_of tag enc o ++ rest) ≡ fold_sections (set o) rest
unfolding fold_sections
fold-section_of set tag enc none rest added = refl
fold-section_of set tag enc (some a) rest added = rw (fold_sections, added a refl)

Holds-some {ℓ} : {A : Type ℓ} (P : A → Type 0) (o : Option A) (a : A) → Holds P o → o ≡ some a → P a
Holds-some P o a h e = subst (Holds P) e h

module _ (inode : Inode) (valid : IsValid inode) where
  with_timestamps : Option UnderlyingTimestamps → Inode
  with_timestamps o = record default { timestamps = o }

  with_acl : Option Acl → Inode
  with_acl o = record default { timestamps = inode.timestamps; acl = o }

  with_mac : Option (List ℕ) → Inode
  with_mac o = record default { timestamps = inode.timestamps; acl = inode.acl; mac = o }

  with_sig : Option (List ℕ) → Inode
  with_sig o = record inode { sig = o; extra = [] }

  fold-sections : fold_sections default (sections inode) ≡ ok inode
  unfolding sections with_timestamps with_acl with_mac with_sig
  fold-sections =
      fold-section_of with_timestamps section_timestamps encode_timestamps inode.timestamps _
        (λ times e.
          unfold add_section in
          rw (timestamps_lem times (Holds-some TimestampsValid inode.timestamps times valid.0 e)))
      ∙ fold-section_of with_acl section_acl Acl.encode inode.acl _ (λ acl e.
        unfold add_section in rw (acl_lem acl (Holds-some AclValid inode.acl acl valid.1 e)))
      ∙ fold-section_of with_mac section_mac self inode.mac _
          (λ mac e. unfold add_section in rw (Holds-some (IsArray 32) inode.mac mac valid.2 e))
      ∙ fold-section_of with_sig section_sig self inode.sig inode.extra
          (λ sig e. unfold add_section in rw (Holds-some (IsArray 64) inode.sig sig valid.3 e))
      ∙ fold-extra (record inode { extra = [] }) inode.extra valid.4

  Short-section_of {ℓ} :
      {A : Type ℓ} (tag : ℕ) (enc : A → List ℕ) (o : Option A) (rest : List Section)
      → ((a : A) → o ≡ some a → length (enc a) < 2 ^ 32)
      → All Short rest
      → All Short (section_of tag enc o ++ rest)
  Short-section_of tag enc none rest h k = k
  Short-section_of tag enc (some a) rest h k = (h a refl, k)

  Short-extra : (ss : List Section) → All IsExtra ss → All Short ss
  Short-extra [] h = tt
  Short-extra ((tag, body) ∷ rest) h = (h.0.2, Short-extra rest h.1)

  Short-sections : All Short (sections inode)
  unfolding sections
  Short-sections =
      Short-section_of section_timestamps encode_timestamps inode.timestamps _
        (λ times e. omega (arith, length-timestamps times))
        (Short-section_of section_acl Acl.encode inode.acl _
          (λ acl e. (Holds-some AclValid inode.acl acl valid.1 e).1)
          (Short-section_of section_mac self inode.mac _
            (λ mac e. omega (arith, Holds-some (IsArray 32) inode.mac mac valid.2 e))
            (Short-section_of section_sig self inode.sig inode.extra
              (λ sig e. omega (arith, Holds-some (IsArray 64) inode.sig sig valid.3 e))
              (Short-extra inode.extra valid.4))))

-- An inode is decoded from its encoding with every section it had, those of tags unknown to this
-- build unchanged and in their order.
pub decode_inode-encode :
    (inode : Inode)
    → IsValid inode
    → length (encode inode) < 2 ^ 64
    → decode (encode inode) ≡ ok inode
unfolding decode encode read_inode
decode_inode-encode inode valid small =
    let count = length (sections inode) in
    let counted : count % 2 ^ 8 ≡ count = omega (arith, valid.5) in
    let bytes_eq : encode inode ≡ count ∷ section_bytes (sections inode) =
      put_sections_lem (count % 2 ^ 8 ∷ []) (sections inode) (Short-sections inode valid)
      ∙ rw counted refl in
    let reads : Reads read_inode (count ∷ section_bytes (sections inode)) inode =
      Reads-bind u8 _ (count ∷ []) (section_bytes (sections inode)) count inode (Reads-u8 count) (
        Reads-read_sections default inode (sections inode) (Short-sections inode valid)
          (fold-sections inode valid)) in
    let (r, e) =
      run_whole read_inode (count ∷ section_bytes (sections inode)) inode
        (subst (λ b. length b < 2 ^ 64) bytes_eq small) reads in
    ap decode bytes_eq ∙ rw (decode, e)
