-- ===== src/Inode/Node.antt =====
-- crates/arbordb/src/inode/node.rs and underlying_timestamps.rs: the sections of an inode's blob.
use arbordb.Common.{
  ℕ, zero, suc, ◌%◌, ◌^◌, ◌<◌, ◌≤◌, ◌≡◌, List, [], ◌∷◌, ◌++◌, Option, none, some, length, ◌==◌,
  if◌then◌else◌, Result, ok, err, corrupt, All,
}
use arbordb.Common.Be.{be}
use arbordb.Codec.Putters.{put_bytes}
use arbordb.Codec.Reader.{Decoder, pure, lift, u8, u64, bytes, new, ◌>>=◌}
use arbordb.Acl.{Acl}
use arbordb.Acl

abbrev pub section_timestamps : ℕ
section_timestamps = 0

abbrev pub section_acl : ℕ
section_acl = 1

abbrev pub section_mac : ℕ
section_mac = 2

abbrev pub section_sig : ℕ
section_sig = 3

-- Three `i64` fields, each as its 64-bit pattern.
pub record UnderlyingTimestamps : Type 0 where
  pub created : ℕ
  pub modified : ℕ
  pub accessed : ℕ

unfoldable pub read_timestamps : Decoder UnderlyingTimestamps
read_timestamps = do
  created ← u64
  modified ← u64
  accessed ← u64
  pure (record { created = created; modified = modified; accessed = accessed })

-- `UnderlyingTimestamps::decode`
unfoldable pub decode_timestamps : List ℕ → Result UnderlyingTimestamps
unfolding read_timestamps
decode_timestamps body = elim (read_timestamps (new body)) [
  | ok (times, r) ↦ ok times
  | err e ↦ err e
]

unfoldable pub encode_timestamps : UnderlyingTimestamps → List ℕ
encode_timestamps times = (be 8 times.created ++ be 8 times.modified) ++ be 8 times.accessed

abbrev pub Section : Type 0
Section = ℕ × List ℕ

pub record Inode : Type 0 where
  pub timestamps : Option UnderlyingTimestamps
  pub acl : Option Acl
  pub mac : Option (List ℕ)
  pub sig : Option (List ℕ)
  pub extra : List Section

-- `Inode::default`
abbrev pub default : Inode
default = record { timestamps = none; acl = none; mac = none; sig = none; extra = [] }

-- `<[u8; N]>::try_from`
abbrev exact : ℕ → List ℕ → Result (List ℕ)
exact n body = if length body == n then ok body else err corrupt

-- The arms of the `match` of `decode`.
unfoldable pub add_section : Inode → ℕ → List ℕ → Result Inode
unfolding decode_timestamps Acl.decode
add_section inode tag body =
    if tag == section_timestamps
    then elim (decode_timestamps body) [
      | ok times ↦ ok (record inode { timestamps = some times })
      | err e ↦ err e
    ]
    else if tag == section_acl
    then elim (Acl.decode body) [ ok acl ↦ ok (record inode { acl = some acl }) | err e ↦ err e ]
    else if tag == section_mac
    then elim (exact 32 body) [ ok mac ↦ ok (record inode { mac = some mac }) | err e ↦ err e ]
    else if tag == section_sig
    then elim (exact 64 body) [ ok sig ↦ ok (record inode { sig = some sig }) | err e ↦ err e ]
    else ok (record inode { extra = inode.extra ++ (tag, body) ∷ [] })

-- `for _ in 0..count`
unfoldable pub read_sections : ℕ → Inode → Decoder Inode
unfolding add_section
read_sections zero inode = pure inode
read_sections (suc left) inode = do
  tag ← u8
  body ← bytes
  next ← lift (add_section inode tag body)
  read_sections left next

unfoldable pub read_inode : Decoder Inode
unfolding read_sections
read_inode = do count ← u8; read_sections count default

unfoldable pub decode : List ℕ → Result Inode
unfolding read_inode
decode blob = elim (read_inode (new blob)) [ ok (inode, r) ↦ ok inode | err e ↦ err e ]

-- `if let Some(…) = … { sections.push(…) }`
abbrev pub section_of {ℓ} : {A : Type ℓ} → ℕ → (A → List ℕ) → Option A → List Section
section_of tag enc none = []
section_of tag enc (some a) = (tag, enc a) ∷ []

abbrev pub self : List ℕ → List ℕ
self body = body

unfoldable pub sections : Inode → List Section
unfolding encode_timestamps Acl.encode
sections inode =
    section_of section_timestamps encode_timestamps inode.timestamps
    ++ (section_of section_acl Acl.encode inode.acl
        ++ (section_of section_mac self inode.mac
            ++ (section_of section_sig self inode.sig ++ inode.extra)))

unfoldable pub put_sections : List ℕ → List Section → List ℕ
unfolding put_bytes
put_sections out [] = out
put_sections out ((tag, body) ∷ rest) = put_sections (put_bytes (out ++ tag ∷ []) body) rest

unfoldable pub encode : Inode → List ℕ
unfolding sections put_sections
encode inode = put_sections (length (sections inode) % 2 ^ 8 ∷ []) (sections inode)

-- What the fields can hold, and blobs short enough for their prefixes.
abbrev pub TimestampsValid : UnderlyingTimestamps → Type 0
TimestampsValid times =
    (times.created < 2 ^ 64) × (times.modified < 2 ^ 64) × (times.accessed < 2 ^ 64)

abbrev pub Holds {ℓ} : {A : Type ℓ} → (A → Type 0) → Option A → Type 0
Holds P none = Unit
Holds P (some a) = P a

abbrev pub AclValid : Acl → Type 0
AclValid acl = Acl.IsValid acl × (length (Acl.encode acl) < 2 ^ 32)

abbrev pub IsArray : ℕ → List ℕ → Type 0
IsArray n body = length body ≡ n

-- A section that this build does not know.
abbrev pub IsExtra : Section → Type 0
IsExtra (tag, body) = (4 ≤ tag) × (tag < 256) × (length body < 2 ^ 32)

abbrev pub IsValid : Inode → Type 0
IsValid inode =
    Holds TimestampsValid inode.timestamps
    × Holds AclValid inode.acl
    × Holds (IsArray 32) inode.mac
    × Holds (IsArray 64) inode.sig
    × All IsExtra inode.extra
    × (length (sections inode) < 2 ^ 8)
