-- ===== src/Bytes/Order.antt =====
-- The order on strings is total, and sorting forgets the order of its input.
use subnet.Prelude.{◌≡◌, refl, ap₂, ◌∙◌, true, false, List, [], ◌∷◌, arith, nat_eq}
use mathlib.Core.List.{Permᴰ}
use subnet.Bytes.{Bytes, bytes_leb, insert_sorted, sort_bytes}

leb_total : (x y : Bytes) → bytes_leb x y ≡ false → bytes_leb y x ≡ true
leb_total [] y h = cc
leb_total (a ∷ x) [] h = refl
leb_total (a ∷ x) (b ∷ y) h = ground (arith, leb_total x y)

leb_antisym : (x y : Bytes) → bytes_leb x y ≡ true → bytes_leb y x ≡ true → x ≡ y
leb_antisym [] [] h k = refl
leb_antisym [] (b ∷ y) h k = cc
leb_antisym (a ∷ x) [] h k = cc
leb_antisym (a ∷ x) (b ∷ y) h k = ground (arith, leb_antisym x y)

leb_trans : (x y z : Bytes) → bytes_leb x y ≡ true → bytes_leb y z ≡ true → bytes_leb x z ≡ true
leb_trans [] y z h k = refl
leb_trans (a ∷ x) [] z h k = cc
leb_trans (a ∷ x) (b ∷ y) [] h k = cc
leb_trans (a ∷ x) (b ∷ y) (c ∷ z) h k = ground (arith, leb_trans x y z)

insert_comm :
    (x y : Bytes) (l : List Bytes)
    → insert_sorted x (insert_sorted y l) ≡ insert_sorted y (insert_sorted x l)
unfolding insert_sorted
insert_comm x y [] = ground (arith, leb_total x y, leb_antisym x y)
insert_comm x y (z ∷ l) = ground (
  arith,
  leb_total x y,
  leb_total x z,
  leb_total y z,
  leb_antisym x y,
  leb_trans x y z,
  leb_trans y x z,
  leb_trans z x y,
  leb_trans z y x,
  insert_comm x y l,
)

-- Sorting gives one result for all orders of the same strings.
pub sort_bytes-perm : (xs ys : List Bytes) → Permᴰ xs ys → sort_bytes xs ≡ sort_bytes ys
unfolding sort_bytes
sort_bytes-perm [] [] Permᴰ.nil = refl
sort_bytes-perm (x ∷ xs) (y ∷ ys) (Permᴰ.cons e p) = ap₂ insert_sorted e (sort_bytes-perm xs ys p)
sort_bytes-perm (x ∷ y ∷ xs) (y' ∷ x' ∷ xs') (Permᴰ.swap e f) =
    insert_comm x y (sort_bytes xs)
    ∙ ap₂ (λ a b. insert_sorted a (insert_sorted b (sort_bytes xs))) f e
sort_bytes-perm xs ys (Permᴰ.trans p q) = sort_bytes-perm xs _ p ∙ sort_bytes-perm _ ys q
