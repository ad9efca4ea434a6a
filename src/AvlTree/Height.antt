-- ===== src/AvlTree/Height.antt =====
-- The height of a tree of src/avltree.c, against the logarithm of its size.
use native.Mathlib.Nat.{pow-suc}
use native.Mathlib.Decide.{dec_le}
use fsdyn.Prelude.{
  ℕ, zero, suc, ◌+◌, ◌*◌, ◌^◌, max, ◌≤◌, ◌≡◌, length, length-append, ◌∷◌, refl, arith,
}
use fsdyn.Prelude.Int.{ℤ, pos, negsuc}
use fsdyn.AvlTree.{Tree, leaf, node, AvlTree, flatten}
use fsdyn.AvlTree.Comparator.{Comparator}
use fsdyn.AvlTree.Balance.{height, IsBalanced, Tilt}
use fsdyn.AvlTree.Valid.{IsValid}

-- The least number of elements at a height.
min_size : ℕ → ℕ
min_size zero = 0
min_size (suc zero) = 1
min_size (suc (suc h)) = min_size (suc h) + min_size h + 1

min_size-suc :
    (h : ℕ) → (min_size h ≤ min_size (suc h)) × (min_size (suc h) ≤ min_size h + min_size h + 1)
unfolding min_size
min_size-suc zero = omega arith
min_size-suc (suc h) = omega (arith, min_size-suc h)

min_size_mono : (h d : ℕ) → h ≤ d → min_size h ≤ min_size d
min_size_mono h zero le = rw (le_zero h le) (omega arith)
  where
    le_zero : (n : ℕ) → n ≤ 0 → n ≡ 0
    le_zero n l = omega arith
min_size_mono h (suc d) le = elim (dec_le h d) [
  | yes p ↦ omega (arith, min_size_mono h d p, min_size-suc d)
  | no p ↦ let e : h ≡ suc d = omega arith in rw e (omega arith)
]

double : ℕ → ℕ
double zero = 0
double (suc k) = suc (suc (double k))

double-eq : (k : ℕ) → double k ≡ 2 * k
unfolding double
double-eq zero = refl
double-eq (suc k) = omega (arith, double-eq k)

two_pow-min_size : (k : ℕ) → 2 ^ k ≤ min_size (double k) + 1
unfolding min_size double
two_pow-min_size zero = omega arith
two_pow-min_size (suc k) = rw pow-suc (omega (arith, two_pow-min_size k, min_size-suc (double k)))

Tilt-min_size :
    (b : ℤ) (hl hr : ℕ) → Tilt b hl hr → min_size (suc (max hl hr)) ≤ min_size hl + min_size hr + 1
unfolding min_size
Tilt-min_size (pos zero) hl hr t =
    let e : max hl hr ≡ hr = omega arith in rw (e, t) (omega (arith, min_size-suc hr))
Tilt-min_size (pos (suc zero)) hl hr t =
    let e : max hl hr ≡ suc hl = omega arith in rw (e, t) (omega arith)
Tilt-min_size (negsuc zero) hl hr t =
    let e : max hl hr ≡ suc hr = omega arith in rw (e, t) (omega arith)
Tilt-min_size (pos (suc (suc n))) hl hr t = absurd t
Tilt-min_size (negsuc (suc n)) hl hr t = absurd t

module _ {ℓ κ} {K : Type ℓ} {V : Type κ} where
  min_size-le : (t : Tree K V) → IsBalanced t → min_size (height t) ≤ length (flatten t)
  min_size-le leaf h = unfold min_size in omega arith
  min_size-le (node l k v b r) h = rw (length-append (flatten l) ((k, v) ∷ flatten r)) (
      omega
        (arith, min_size-le l h.0, min_size-le r h.1, Tilt-min_size b (height l) (height r) h.2))

-- A well-formed tree whose height is at least 2 * k has at least 2 ^ k - 1 elements.
pub height-size {ℓ κ} :
    {K : Type ℓ} {V : Type κ} ⦃c : Comparator K⦄ (tree : AvlTree K V) (k : ℕ)
    → IsValid tree
    → 2 * k ≤ height tree.root
    → 2 ^ k ≤ tree.size + 1
height-size tree k v h = omega (
  arith,
  v.counted,
  two_pow-min_size k,
  min_size_mono (double k) (height tree.root) (omega (arith, double-eq k)),
  min_size-le tree.root v.balanced,
)
