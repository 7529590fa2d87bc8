-- ===== src/Resolver/Sums.antt =====
-- Sums over the blocks of a volume, and changes of one entry of a map.
use sandook.Base.{
  ℕ, zero, suc, ◌+◌, ◌≡◌, refl, ap, sym, ◌<◌, ◌≢◌, ◌==◌, arith, Bool-cases, inl, inr, ==_iff,
  ne_of_==,
}
use sandook.Types.{BlockAddr, put}

-- A sum over the blocks.
pub sum : (BlockAddr → ℕ) → ℕ → ℕ
sum f zero = 0
sum f (suc n) = f n + sum f n

sum_same : (f g : BlockAddr → ℕ) (n : ℕ) → ((a : BlockAddr) → a < n → f a ≡ g a) → sum f n ≡ sum g n
unfolding sum
sum_same f g zero h = refl
sum_same f g (suc n) h =
    let r = sum_same f g n (λ a l. h a (omega (arith, l))) in
    let q = h n (omega arith) in omega (arith, r, q)

pub sum_other :
    (f g : BlockAddr → ℕ) (a n : ℕ)
    → a < n
    → ((b : BlockAddr) → b ≢ a → f b ≡ g b)
    → sum f n + g a ≡ sum g n + f a
unfolding sum
sum_other f g a zero l h = absurd (omega (arith, l))
sum_other f g a (suc n) l h = elim (Bool-cases (n == a)) [
  | inl e ↦
      let q : n ≡ a = (==_iff n a).0 e in
      let r = sum_same f g n (λ b k. h b (λ z. omega (arith, k, q, z))) in
      let f' = ap f q in let g' = ap g q in omega (arith, r, f', g')
  | inr e ↦
      let n' = ne_of_== n a e in
      let r = sum_other f g a n (omega (arith, l, n')) h in let q = h n n' in omega (arith, r, q)
]

pub put_self : {A : Type 0} (f : ℕ → A) (a : ℕ) (v : A) → put f a v a ≡ v
put_self f a v = rw ((==_iff a a).1 refl) refl

pub put_other : {A : Type 0} (f : ℕ → A) (a b : ℕ) (v : A) → b ≢ a → put f a v b ≡ f b
put_other f a b v n = elim (Bool-cases (a == b)) [
  | inl e ↦ absurd (n (sym ((==_iff a b).0 e)))
  | inr e ↦ rw e refl
]

pub sum_zero : (f : BlockAddr → ℕ) (n : ℕ) → ((a : BlockAddr) → f a ≡ 0) → sum f n ≡ 0
unfolding sum
sum_zero f zero h = refl
sum_zero f (suc n) h = omega (arith, h n, sum_zero f n h)
