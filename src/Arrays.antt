-- ===== src/Arrays.antt =====
-- util/common/array.go: the union and the symmetric difference of two slices of ids.
use hy_panel.Base.{
  ℕ, ◌≡◌, refl, true, not, ◌&&◌, ◌||◌, List, [], ◌∷◌, ◌++◌, arith, if◌then◌else◌, has, distinct,
  has-append, ==_iff,
}

-- A Go map from uint to bool that is only ever written `true`: its keys, each once.
unfoldable pub mark : List ℕ → List ℕ → List ℕ
mark [] m = m
mark (v ∷ vs) m = mark vs (if has v m then m else v ∷ m)

pub has-mark : (x : ℕ) (vs m : List ℕ) → has x (mark vs m) ≡ (has x vs || has x m)
unfolding mark
has-mark x [] m = refl
has-mark x (v ∷ vs) m = ground (arith, has-mark x vs m, has-mark x vs (v ∷ m), ==_iff x v)

pub mark-distinct : (vs m : List ℕ) → distinct m ≡ true → distinct (mark vs m) ≡ true
unfolding mark
mark-distinct [] m h = h
mark-distinct (v ∷ vs) m h = ground (arith, mark-distinct vs m h, mark-distinct vs (v ∷ m))

-- The order in which Go ranges over a map is not specified: it is chosen by the environment.
pub record MapOrder : Type 0 where
  pub range : List ℕ → List ℕ
  pub has-range : (x : ℕ) (keys : List ℕ) → has x (range keys) ≡ has x keys
  pub range-distinct : (keys : List ℕ) → distinct keys ≡ true → distinct (range keys) ≡ true

module _ (order : MapOrder) where
  -- UnionUintArray
  unfoldable pub union_uint_array : List ℕ → List ℕ → List ℕ
  union_uint_array a b = order.range (mark b (mark a []))

  -- The union holds the ids of both slices and no other, in whatever order Go ranges over a map.
  pub has-union_uint_array :
      (x : ℕ) (a b : List ℕ) → has x (union_uint_array a b) ≡ (has x a || has x b)
  unfolding union_uint_array
  has-union_uint_array x a b =
      ground
        (arith, order.has-range x (mark b (mark a [])), has-mark x b (mark a []), has-mark x a [])

  pub union_uint_array-distinct : (a b : List ℕ) → distinct (union_uint_array a b) ≡ true
  unfolding union_uint_array
  union_uint_array-distinct a b =
      order.range-distinct (mark b (mark a []))
        (mark-distinct b (mark a []) (mark-distinct a [] refl))

-- One of the loops of DiffUintArray: the items that are not in the set.
unfoldable pub absent : List ℕ → List ℕ → List ℕ
absent set [] = []
absent set (x ∷ xs) = let rest = absent set xs in if has x set then rest else x ∷ rest

-- DiffUintArray
unfoldable pub diff_uint_array : List ℕ → List ℕ → List ℕ
diff_uint_array a b = absent (mark a []) b ++ absent (mark b []) a

has-absent : (x : ℕ) (set xs : List ℕ) → has x (absent set xs) ≡ (has x xs && not (has x set))
unfolding absent
has-absent x set [] = refl
has-absent x set (y ∷ ys) = ground (arith, has-absent x set ys, ==_iff x y)

-- The difference holds exactly the ids that are in one of the two slices and not in the other.
pub has-diff_uint_array :
    (x : ℕ) (a b : List ℕ)
    → has x (diff_uint_array a b) ≡ ((has x a && not (has x b)) || (has x b && not (has x a)))
unfolding diff_uint_array
has-diff_uint_array x a b = ground (
  arith,
  has-append x (absent (mark a []) b) (absent (mark b []) a),
  has-absent x (mark a []) b,
  has-absent x (mark b []) a,
  has-mark x a [],
  has-mark x b [],
)
