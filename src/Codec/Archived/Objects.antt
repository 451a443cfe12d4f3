-- ===== src/Codec/Archived/Objects.antt =====
-- What `push_object` leaves in the buffer: the names, then a vnode whose table points at them.
use arbordb.Common.{
  ℕ, suc, ◌+◌, ◌*◌, ◌%◌, ◌^◌, ◌≤◌, ◌<◌, ◌≡◌, refl, sym, ap, subst, ◌∙◌, List, [], ◌∷◌, ◌++◌,
  append_assoc, append-nil, length, length-append, arith,
}
use arbordb.Common.Be.{small_mod, be, length-be}
use arbordb.Codec.Putters.{put_u32}
use arbordb.Codec.Read.At.{At-behind, At, At-append, At-end, At-left}
use arbordb.Codec.Reader.Reads.{concat_map}
use arbordb.Codec.Archived.Write.{EntryRecord, put_names, put_records, push_object}
use arbordb.Codec.Archived.Repr.{Placed, Repr, ReprEntry, ReprEntries, Repr-append}
use arbordb.Codec.Archived.Written.{Pushed, Repr-at, vnode, length-vnode, At-vnode}
use arbordb.Data.Utf8.{Text}
use arbordb.Value.Tree.{Entries, node, end, entry, count_entries}

-- The names of the records, each at its offset.
abbrev NameRecords : List ℕ → List EntryRecord → List (Text × ℕ) → Type 0
NameRecords b [] [] = Unit
NameRecords b ((n, l, c) ∷ rs) ((k, c') ∷ es) =
    Placed b n k × (length k < 2 ^ 32) × (l ≡ length k) × (c ≡ c') × NameRecords b rs es
NameRecords b [] (e ∷ es) = ⊥
NameRecords b (r ∷ rs) [] = ⊥

NameRecords-append :
    (b more : List ℕ) (rs : List EntryRecord) (es : List (Text × ℕ))
    → NameRecords b rs es
    → NameRecords (b ++ more) rs es
NameRecords-append b more [] [] h = tt
NameRecords-append b more ((n, l, c) ∷ rs) ((k, c') ∷ es) (place, small, el, ec, rest) = (
  (place.0, place.1, At-append b more n k place.2),
  small,
  el,
  ec,
  NameRecords-append b more rs es rest,
)
NameRecords-append b more [] (e ∷ es) h = absurd h
NameRecords-append b more (r ∷ rs) [] h = absurd h

put_names-Records :
    (es : List (Text × ℕ)) (buf : List ℕ)
    → 5 ≤ length buf
    → Pushed buf (put_names buf es).1 (NameRecords (put_names buf es).1 (put_names buf es).0 es)
unfolding put_names
put_names-Records [] buf lo = record {
  more = [];
  grows = sym (append-nil buf);
  holds = λ small. tt;
}
put_names-Records ((k, c) ∷ es) buf lo =
    let rest = put_names-Records es (buf ++ k) (omega (arith, length-append buf k)) in
    let w = (put_names (buf ++ k) es).1 in
    record {
      more = k ++ rest.more;
      grows = rest.grows ∙ append_assoc buf k rest.more;
      holds = λ small.
          let total : length w ≡ length buf + length k + length rest.more =
            ap length rest.grows
            ∙ omega (arith, length-append (buf ++ k) rest.more, length-append buf k) in
          (
            (
              omega (arith, small_mod (length buf) (omega arith)),
              omega (arith, small_mod (length buf) (omega arith)),
              subst (λ b. At b (length buf % 2 ^ 32) k) (sym rest.grows)
                  (At-append (buf ++ k) rest.more (length buf % 2 ^ 32) k (
                    subst (λ o. At (buf ++ k) o k) (sym (small_mod (length buf) (omega arith)))
                      (At-end buf k))),
            ),
            omega arith,
            small_mod (length k) (omega arith),
            refl,
            rest.holds small,
          );
    }

record_bytes : EntryRecord → List ℕ
record_bytes (n, l, c) = be 4 n ++ (be 4 l ++ be 4 c)

length-record : (r : EntryRecord) → length (record_bytes r) ≡ 12
unfolding record_bytes
length-record (n, l, c) = omega (
  arith,
  length-append (be 4 n) (be 4 l ++ be 4 c),
  length-append (be 4 l) (be 4 c),
  length-be 4 n,
  length-be 4 l,
  length-be 4 c,
)

put_records_lem :
    (buf : List ℕ) (rs : List EntryRecord) → put_records buf rs ≡ buf ++ concat_map record_bytes rs
unfolding put_records record_bytes
put_records_lem buf [] = sym (append-nil buf)
put_records_lem buf ((n, l, c) ∷ rs) =
    put_records_lem (put_u32 (put_u32 (put_u32 buf n) l) c) rs
    ∙ (unfold put_u32 in simp append_assoc)

length-records : (rs : List EntryRecord) → length (concat_map record_bytes rs) ≡ 12 * length rs
length-records [] = omega arith
length-records (r ∷ rs) = omega (
  arith,
  length-append (record_bytes r) (concat_map record_bytes rs),
  length-record r,
  length-records rs,
)

-- The children of an object under their names, each at its offset.
abbrev pub EntryOffsets : List ℕ → List (Text × ℕ) → Entries → Type 0
EntryOffsets b [] end = Unit
EntryOffsets b ((k, c) ∷ es) (entry k' v map) = (k ≡ k') × Repr b c v × EntryOffsets b es map
EntryOffsets b [] (entry k v map) = ⊥
EntryOffsets b (e ∷ es) end = ⊥

EntryOffsets-append :
    (b more : List ℕ) (es : List (Text × ℕ)) (map : Entries)
    → EntryOffsets b es map
    → EntryOffsets (b ++ more) es map
EntryOffsets-append b more [] end h = tt
EntryOffsets-append b more ((k, c) ∷ es) (entry k' v map) h =
    (h.0, Repr-append b more c v h.1, EntryOffsets-append b more es map h.2)
EntryOffsets-append b more [] (entry k v map) h = absurd h
EntryOffsets-append b more (e ∷ es) end h = absurd h

records_count :
    (b : List ℕ) (rs : List EntryRecord) (es : List (Text × ℕ))
    → NameRecords b rs es
    → length rs ≡ length es
records_count b [] [] h = refl
records_count b ((n, l, c) ∷ rs) ((k, c') ∷ es) h = ap suc (records_count b rs es h.4)
records_count b [] (e ∷ es) h = absurd h
records_count b (r ∷ rs) [] h = absurd h

entries_count :
    (b : List ℕ) (es : List (Text × ℕ)) (map : Entries)
    → EntryOffsets b es map
    → length es ≡ count_entries map
entries_count b [] end h = refl
entries_count b ((k, c) ∷ es) (entry k' v map) h = ap suc (entries_count b es map h.2)
entries_count b [] (entry k v map) h = absurd h
entries_count b (e ∷ es) end h = absurd h

entries_table :
    (b : List ℕ) (table : ℕ) (rs : List EntryRecord) (es : List (Text × ℕ)) (map : Entries)
    → 5 ≤ table
    → At b table (concat_map record_bytes rs)
    → NameRecords b rs es
    → EntryOffsets b es map
    → ReprEntries b table map
entries_table b table [] [] end lo at h k = tt
entries_table b table ((n, l, c) ∷ rs) ((key, c') ∷ es) (entry key' v map) lo at
      (place, small, el, ec, h) (ek, r, k) =
    (
      subst (λ name. ReprEntry b table name (λ child. Repr b child v)) ek
          (
            n,
            c',
            lo,
            subst (λ t. At b table (be 4 n ++ (be 4 (length key) ++ be 4 t))) ec
                (subst (λ t. At b table (be 4 n ++ (be 4 t ++ be 4 c))) el
                  (unfold record_bytes in
                    At-left b table (record_bytes (n, l, c)) (concat_map record_bytes rs) at)),
            small,
            place,
            r,
          ),
      entries_table b (table + 12) rs es map (omega arith)
          (At-behind b table 12 (record_bytes (n, l, c)) (concat_map record_bytes rs)
            (length-record (n, l, c)) at)
          h k,
    )
entries_table b table [] [] (entry _ v map) lo at h k = absurd k
entries_table b table [] (e ∷ es) map lo at h k = absurd h
entries_table b table (r ∷ rs) [] map lo at h k = absurd h
entries_table b table (r ∷ rs) (e ∷ es) end lo at h k = absurd k

object_at :
    (w : List ℕ) (rs : List EntryRecord) (es : List (Text × ℕ)) (map : Entries)
    → 5 ≤ length w
    → length (w ++ vnode 2 (length rs % 2 ^ 32) (concat_map record_bytes rs)) < 2 ^ 32
    → NameRecords w rs es
    → EntryOffsets w es map
    → Repr (w ++ vnode 2 (length rs % 2 ^ 32) (concat_map record_bytes rs)) (length w) (node map)
object_at w rs es map lo small h k =
    let table = concat_map record_bytes rs in
    let tail = vnode 2 (length rs % 2 ^ 32) table in
    let total = length-append w tail in
    let sizes = length-vnode 2 (length rs % 2 ^ 32) table in
    let per_record = length-records rs in
    let counted = records_count w rs es h ∙ entries_count w es map k in
    let (tagged, behind) = At-vnode w 2 (length rs % 2 ^ 32) table in
    (
      (
        lo,
        omega arith,
        subst (λ n. At (w ++ tail) (length w) (2 ∷ be 4 n))
            (small_mod (length rs) (omega arith) ∙ counted) tagged,
      ),
      omega arith,
      entries_table (w ++ tail) (length w + 5) rs es map (omega arith) behind
          (NameRecords-append w tail rs es h) (EntryOffsets-append w tail es map k),
    )

push_object_lem :
    (buf : List ℕ) (es : List (Text × ℕ))
    → (push_object buf es).1
      ≡ (put_names buf es).1
        ++ vnode 2
            (length (put_names buf es).0 % 2 ^ 32)
            (concat_map record_bytes (put_names buf es).0)
unfolding push_object
push_object_lem buf es =
    put_records_lem
      (put_u32 ((put_names buf es).1 ++ 2 ∷ []) (length (put_names buf es).0 % 2 ^ 32))
      (put_names buf es).0
    ∙ (unfold put_u32 in simp append_assoc)

-- From children at their offsets to an object vnode over them.
pub push_object-Repr :
    (buf : List ℕ) (es : List (Text × ℕ)) (map : Entries)
    → 5 ≤ length buf
    → (length buf < 2 ^ 32 → EntryOffsets buf es map)
    → Pushed buf
        (push_object buf es).1
        (Repr (push_object buf es).1 (push_object buf es).0 (node map))
push_object-Repr buf es map lo h =
    let rs = (put_names buf es).0 in
    let w = (put_names buf es).1 in
    let names = put_names-Records es buf lo in
    let tail = vnode 2 (length rs % 2 ^ 32) (concat_map record_bytes rs) in
    let e = push_object_lem buf es in
    record {
      more = names.more ++ tail;
      grows = e ∙ ap (λ b. b ++ tail) names.grows ∙ append_assoc buf names.more tail;
      holds = λ small.
          let small' : length (w ++ tail) < 2 ^ 32 = subst (λ b. length b < 2 ^ 32) e small in
          let total = length-append w tail in
          let grown : length w ≡ length buf + length names.more =
            ap length names.grows ∙ length-append buf names.more in
          Repr-at (push_object buf es).1 (w ++ tail) (push_object buf es).0 (length w) (node map) e
            (unfold push_object in small_mod (length w) (omega arith))
            (object_at w rs es map (omega arith) small' (names.holds (omega arith)) (
              subst (λ b. EntryOffsets b es map) (sym names.grows)
                (EntryOffsets-append buf names.more es map (h (omega arith)))));
    }

put_names-grows : (es : List (Text × ℕ)) (buf : List ℕ) → length buf ≤ length (put_names buf es).1
unfolding put_names
put_names-grows [] buf = omega arith
put_names-grows ((k, c) ∷ es) buf =
    omega (arith, put_names-grows es (buf ++ k), length-append buf k)

pub push_object-grows :
    (buf : List ℕ) (es : List (Text × ℕ)) → length buf + 1 ≤ length (push_object buf es).1
push_object-grows buf es =
    let w = (put_names buf es).1 in
    let rs = (put_names buf es).0 in
    let table = concat_map record_bytes rs in
    omega (
      arith,
      put_names-grows es buf,
      ap length (push_object_lem buf es),
      length-append w (vnode 2 (length rs % 2 ^ 32) table),
      length-vnode 2 (length rs % 2 ^ 32) table,
    )
