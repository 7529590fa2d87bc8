-- ===== src/Sharding/Joined.antt =====
-- The combined result, in whatever order the threads' requests are processed.
use mathlib.Core.List.{append_assoc}
use sandook.Base.{
  ℕ, zero, suc, ◌+◌, ◌*◌, ◌%◌, ◌≡◌, refl, ap, sym, ◌∙◌, ◌<◌, ◌≢◌, false, ◌==◌, arith, List, [], ◌∷◌,
  ◌++◌, inl, inr, ◌⊎◌, All, flatten, length, length-append,
}
use sandook.Status.{Status, ok, err, fault, Error, code, ok-injective, ◌>>=◌}
use sandook.Types.{IoDesc, u32_mod}
use sandook.Sharding.{
  Interleaves, joined, steps, requests_from, spawn_threads, Counters, IoResult, count, process_all,
  process_sharded_requests,
}
use sandook.Sharding.Cover.{spawn_threads_cover}

flatten-append : (xs ys : List (List IoDesc)) → flatten (xs ++ ys) ≡ flatten xs ++ flatten ys
flatten-append [] ys = refl
flatten-append (x ∷ xs) ys =
    ap (λ r. x ++ r) (flatten-append xs ys) ∙ sym (append_assoc x (flatten xs) (flatten ys))

length-flatten-none : (ts : List (List IoDesc)) → All (λ t. t ≡ []) ts → length (flatten ts) ≡ 0
length-flatten-none [] h = refl
length-flatten-none (t ∷ ts) h = rw h.0 (length-flatten-none ts h.1)

-- An interleaving takes as many steps as the threads have requests.
length-Interleaves :
    {ts : List (List IoDesc)} {order : List IoDesc}
    → Interleaves ts order
    → length order ≡ length (flatten ts)
length-Interleaves (joined h) = sym (length-flatten-none _ h)
length-Interleaves (steps before after x t {ts = ts} {order = order} e i) = rw e (
    omega (
      arith,
      length-Interleaves i,
      ap length (flatten-append before (t ∷ after)),
      ap length (flatten-append before ((x ∷ t) ∷ after)),
      length-append (flatten before) (flatten (t ∷ after)),
      length-append (flatten before) (flatten ((x ∷ t) ∷ after)),
    ))

length-requests_from : (iod : IoDesc) (off k : ℕ) → length (requests_from iod off k) ≡ k
unfolding requests_from
length-requests_from iod off zero = refl
length-requests_from iod off (suc k) = ap suc (length-requests_from iod (off + 1) k)

module _ {S : Type 0} (process_request : S → IoDesc → Status ℕ × S) where
  -- The answers to a sequence of requests.
  unfoldable pub answers : S → List IoDesc → List (Status ℕ)
  answers s [] = []
  answers s (iod ∷ iods) = let (ret, s') = process_request s iod in ret ∷ answers s' iods

  abbrev pub IsOk : ℕ → Status ℕ → Type 0
  IsOk v r = r ≡ ok v

  process_all-ok :
      (s : S) (c : Counters) (v : ℕ) (order : List IoDesc)
      → c.res < u32_mod
      → All (IsOk v) (answers s order)
      → (s' : S) × (process_all process_request s c order
          ≡ ok (record { err_code = c.err_code; res = (c.res + v * length order) % u32_mod }, s'))
  unfolding process_all answers count
  process_all-ok s c v [] b h =
      (s, ap (λ n. ok (record { err_code = c.err_code; res = n }, s)) (omega arith))
  process_all-ok s c v (iod ∷ iods) b h =
      let (s', e) =
        process_all-ok (process_request s iod).1 (record c { res = (c.res + v) % u32_mod }) v iods
          (omega arith) h.1 in
      (s', rw h.0 (e ∙ ap (λ n. ok (record { err_code = c.err_code; res = n }, s')) (omega arith)))

  -- In whatever order the threads of a request of fewer than 2 ^ 32 sectors run, if every sector's
  -- request is answered with `v` bytes, the request as a whole succeeds with `v` bytes for each of
  -- its sectors (as a 32-bit pattern).
  pub process_sharded_requests-ok :
      (iod : IoDesc) (s : S) (v : ℕ) {ts : List (List IoDesc)} {order : List IoDesc}
      → iod.num_sectors < u32_mod
      → spawn_threads iod ≡ ok ts
      → Interleaves ts order
      → All (IsOk v) (answers s order)
      → (s' : S) × (process_sharded_requests process_request s order
          ≡ ok (IoResult.k_ok (v * iod.num_sectors % u32_mod), s'))
  unfolding process_sharded_requests
  process_sharded_requests-ok iod s v {ts} {order} b e i h =
      let (us, e', cov) = spawn_threads_cover iod b in
      let same : ts ≡ us = ok-injective ts us (sym e ∙ e') in
      let len : length order ≡ iod.num_sectors =
        length-Interleaves i
        ∙ ap (λ r. length (flatten r)) same
        ∙ ap length cov
        ∙ length-requests_from iod 0 iod.num_sectors in
      let (s', p) = process_all-ok s (record { err_code = 0; res = 0 }) v order (omega arith) h in
      (s', rw p (ap (λ n. ok (IoResult.k_ok n, s')) (omega (arith, ap (λ (n : ℕ). v * n) len))))

  -- An answer that is an error.
  abbrev pub HasError : List (Status ℕ) → Type 0
  HasError [] = ⊥
  HasError (ok n ∷ rs) = HasError rs
  HasError (err e ∷ rs) = Unit
  HasError (fault ∷ rs) = HasError rs

  code-pos : (e : Error) → 0 < code e
  unfolding code
  code-pos e = ground arith

  -- No answer stops the process.
  abbrev pub Answered : List (Status ℕ) → Type 0
  Answered rs = All (λ r. r ≢ fault) rs

  failed_step :
      (r : Status ℕ) (s : S) (c : Counters) (iods : List IoDesc)
      → r ≢ fault
      → ((d : Counters)
          → (0 < d.err_code) ⊎ HasError (answers s iods)
          → (p : Counters × S) × (process_all process_request s d iods ≡ ok p) × (0 < p.0.err_code))
      → (0 < c.err_code) ⊎ HasError (r ∷ answers s iods)
      → (p : Counters × S) × ((count c r >>= λ d. process_all process_request s d iods) ≡ ok p)
        × (0 < p.0.err_code)
  unfolding count
  failed_step (ok n) s c iods a ih (inl h) = ih _ (inl h)
  failed_step (ok n) s c iods a ih (inr h) = ih _ (inr h)
  failed_step (err x) s c iods a ih h = ih _ (inl (code-pos x))
  failed_step fault s c iods a ih h = absurd (a refl)

  process_all-failed :
      (s : S) (c : Counters) (order : List IoDesc)
      → Answered (answers s order)
      → (0 < c.err_code) ⊎ HasError (answers s order)
      → (p : Counters × S) × (process_all process_request s c order ≡ ok p) × (0 < p.0.err_code)
  unfolding process_all answers
  process_all-failed s c [] a (inl h) = ((c, s), refl, h)
  process_all-failed s c [] a (inr h) = absurd h
  process_all-failed s c (iod ∷ iods) a h =
      failed_step (process_request s iod).0 (process_request s iod).1 c iods a.0
        (λ d. process_all-failed (process_request s iod).1 d iods a.1) h

  -- An error of any sector's request is never lost: whatever the order and whatever the other
  -- answers, as long as none of them stops the process, the request as a whole completes as failed,
  -- with a code that is not 0.
  pub process_sharded_requests-failed :
      (s : S) (order : List IoDesc)
      → Answered (answers s order)
      → HasError (answers s order)
      → (n : ℕ) × (s' : S) × (process_sharded_requests process_request s order
          ≡ ok (IoResult.k_failed n, s'))
        × (0 < n)
  unfolding process_sharded_requests
  process_sharded_requests-failed s order a h =
      let ((c, s'), e, pos) =
        process_all-failed s (record { err_code = 0; res = 0 }) order a (inr h) in
      let nonzero : (c.err_code == 0) ≡ false = ground arith in
      (c.err_code, s', rw (e, nonzero) refl, pos)
