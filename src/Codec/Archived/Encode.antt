-- ===== src/Codec/Archived/Encode.antt =====
-- The blob that `encode` builds holds the value at the root offset of its header.
use arbordb.Common.{
  ℕ, zero, suc, ◌^◌, ◌≤◌, ◌<◌, ◌≡◌, refl, sym, ap, subst, ◌∙◌, List, [], ◌∷◌, ◌++◌, append_assoc,
  append-nil, length, length-append, arith,
}
use arbordb.Common.Be.{be, length-be}
use arbordb.Codec.Read.At.{At}
use arbordb.Codec.Archived.Write.{
  begin_blob, patch_root, push_list, push_object, push_value, push_items, push_entries, encode,
}
use arbordb.Codec.Archived.Repr.{Repr, Repr-append, Repr-keep}
use arbordb.Codec.Archived.Written.{Pushed, Offsets, push_leaf-Repr, push_list-Repr}
use arbordb.Codec.Archived.Objects.{EntryOffsets, push_object-Repr}
use arbordb.Value.Tree.{Value, Items, Entries, leaf, list, node, nil, cons, end, entry}

grown-le : (buf w : List ℕ) {P : Type 0} → Pushed buf w P → length buf ≤ length w
grown-le buf w p = omega (arith, ap length p.grows, length-append buf p.more)

-- First one step of growth, then another.
then_grows :
    (buf w w' more more' : List ℕ) → w ≡ buf ++ more → w' ≡ w ++ more' → w' ≡ buf ++ (more ++ more')
then_grows buf w w' more more' e f = f ∙ ap (λ b. b ++ more') e ∙ append_assoc buf more more'

mutual
  unfolding push_value

  push_value-Repr :
      (v : Value) (buf : List ℕ)
      → 5 ≤ length buf
      → Pushed buf (push_value v buf).1 (Repr (push_value v buf).1 (push_value v buf).0 v)
  push_value-Repr (leaf s) buf lo = push_leaf-Repr buf s lo
  push_value-Repr (list xs) buf lo =
      let (os, w) = push_items xs buf in
      let children = push_items-Offsets xs buf lo in
      let above = grown-le buf w children in
      let whole = push_list-Repr w os xs (omega arith) children.holds in
      record {
        more = children.more ++ whole.more;
        grows =
            then_grows buf w (push_list w os).1 children.more whole.more children.grows whole.grows;
        holds = whole.holds;
      }
  push_value-Repr (node map) buf lo =
      let (es, w) = push_entries map buf in
      let children = push_entries-Offsets map buf lo in
      let above = grown-le buf w children in
      let whole = push_object-Repr w es map (omega arith) children.holds in
      record {
        more = children.more ++ whole.more;
        grows =
            then_grows buf w (push_object w es).1 children.more whole.more children.grows
              whole.grows;
        holds = whole.holds;
      }

  push_items-Offsets :
      (xs : Items) (buf : List ℕ)
      → 5 ≤ length buf
      → Pushed buf (push_items xs buf).1 (Offsets (push_items xs buf).1 (push_items xs buf).0 xs)
  push_items-Offsets nil buf lo = record {
    more = [];
    grows = sym (append-nil buf);
    holds = λ small. tt;
  }
  push_items-Offsets (cons x xs) buf lo =
      let (o, w) = push_value x buf in
      let (os, w') = push_items xs w in
      let first = push_value-Repr x buf lo in
      let above = grown-le buf w first in
      let rest = push_items-Offsets xs w (omega arith) in
      let above' = grown-le w w' rest in
      record {
        more = first.more ++ rest.more;
        grows = then_grows buf w w' first.more rest.more first.grows rest.grows;
        holds = λ small. (
          subst (λ b. Repr b o x) (sym rest.grows)
              (Repr-append w rest.more o x (first.holds (omega arith))),
          rest.holds small,
        );
      }

  push_entries-Offsets :
      (es : Entries) (buf : List ℕ)
      → 5 ≤ length buf
      → Pushed buf
          (push_entries es buf).1
          (EntryOffsets (push_entries es buf).1 (push_entries es buf).0 es)
  push_entries-Offsets end buf lo = record {
    more = [];
    grows = sym (append-nil buf);
    holds = λ small. tt;
  }
  push_entries-Offsets (entry k x es) buf lo =
      let (o, w) = push_value x buf in
      let (os, w') = push_entries es w in
      let first = push_value-Repr x buf lo in
      let above = grown-le buf w first in
      let rest = push_entries-Offsets es w (omega arith) in
      let above' = grown-le w w' rest in
      record {
        more = first.more ++ rest.more;
        grows = then_grows buf w w' first.more rest.more first.grows rest.grows;
        holds = λ small. (
          refl,
          subst (λ b. Repr b o x) (sym rest.grows)
              (Repr-append w rest.more o x (first.holds (omega arith))),
          rest.holds small,
        );
      }

At-swap :
    (h h' t : List ℕ) (off : ℕ) (ys : List ℕ)
    → length h ≡ length h'
    → length h ≤ off
    → At (h ++ t) off ys
    → At (h' ++ t) off ys
At-swap [] [] t off ys e lo at = at
At-swap [] (y ∷ h') t off ys e lo at = absurd (omega arith)
At-swap (x ∷ h) [] t off ys e lo at = absurd (omega arith)
At-swap (x ∷ h) (y ∷ h') t zero ys e lo at = absurd (omega arith)
At-swap (x ∷ h) (y ∷ h') t (suc off) ys e lo at =
    At-swap h h' t off ys (omega arith) (omega arith) at

patched :
    (root : ℕ) (more : List ℕ) → patch_root (begin_blob ++ more) root ≡ (1 ∷ be 4 root) ++ more
unfolding patch_root begin_blob be
patched root more = refl

-- What follows the header is what was pushed, and the header holds the root offset.
pub record Encoded (v : Value) : Type 0 where
  pub root : ℕ
  pub rest : List ℕ
  pub bytes_eq : encode v ≡ (1 ∷ be 4 root) ++ rest
  pub holds : length (encode v) < 2 ^ 32 → Repr (encode v) root v

length-begin : length begin_blob ≡ 5
unfolding begin_blob be
length-begin = refl

pub length-encode : (v : Value) → length (push_value v begin_blob).1 ≡ length (encode v)
length-encode v =
    let pushed = push_value-Repr v begin_blob (omega (arith, length-begin)) in
    let r = (push_value v begin_blob).0 in
    let e : encode v ≡ (1 ∷ be 4 r) ++ pushed.more =
      unfold encode in ap (λ b. patch_root b r) pushed.grows ∙ patched r pushed.more in
    ap length pushed.grows
    ∙ length-append begin_blob pushed.more
    ∙ omega
        (arith, length-begin, ap length e, length-append (1 ∷ be 4 r) pushed.more, length-be 4 r)

pub encode-Encoded : (v : Value) → Encoded v
encode-Encoded v =
    let pushed = push_value-Repr v begin_blob (omega (arith, length-begin)) in
    let r = (push_value v begin_blob).0 in
    let w = (push_value v begin_blob).1 in
    let header = 1 ∷ be 4 r in
    let e : encode v ≡ header ++ pushed.more =
      unfold encode in ap (λ b. patch_root b r) pushed.grows ∙ patched r pushed.more in
    let sizes = length-encode v in
    record {
      root = r;
      rest = pushed.more;
      bytes_eq = e;
      holds = λ small.
          Repr-keep w (encode v)
            (λ off ys lo at.
              subst (λ b. At b off ys) (sym e)
                (At-swap begin_blob header pushed.more off ys
                  (omega (arith, length-begin, length-be 4 r)) (omega (arith, length-begin))
                  (subst (λ b. At b off ys) pushed.grows at)))
            r v (pushed.holds (omega arith));
    }
