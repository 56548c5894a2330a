-- ===== src/EventLoopThreadPool/Turns.antt =====
-- Whose turn it is: network/net/EventLoopThreadPool.cc, lines 17 to 55.
use native.Mathlib.Nat.{mod-lt}
use mathlib.Core.Path.{ap₂}
use wl_tmm.Prelude.{
  ℕ, zero, suc, ◌+◌, ◌<◌, ◌%◌, ◌^◌, ◌≡◌, refl, ap, ◌∙◌, some, List, [], ◌∷◌, get_elem?, length,
  arith,
}
use wl_tmm.EventLoopThreadPool.{EventLoopThreadPool, get_next_loop}

-- The pool after some calls of GetNextLoop.
abbrev pub after_calls : ℕ → EventLoopThreadPool → EventLoopThreadPool
after_calls zero p = p
after_calls (suc n) p = after_calls n (get_next_loop p).1

after_calls-get_next_loop :
    (n : ℕ) (p : EventLoopThreadPool)
    → p.loop_index + n < 2 ^ 31
    → ((after_calls n p).loop_index ≡ p.loop_index + n) × ((after_calls n p).threads ≡ p.threads)
unfolding get_next_loop
after_calls-get_next_loop zero p h = (omega arith, refl)
after_calls-get_next_loop (suc n) p h =
    let next : EventLoopThreadPool = record p { loop_index = (p.loop_index + 1) % 2 ^ 32 } in
    let (index, same) = after_calls-get_next_loop n next (omega (arith, h)) in
    (omega (arith, index, h), same)

get_elem_in : (xs : List ℕ) (i : ℕ) → i < length xs → (x : ℕ) × (get_elem? xs i ≡ some x)
get_elem_in [] i h = absurd (omega arith)
get_elem_in (x ∷ xs) zero h = (x, refl)
get_elem_in (x ∷ xs) (suc i) h = get_elem_in xs i (omega (arith, h))

get_next_loop-found :
    (p : EventLoopThreadPool) (x : ℕ)
    → 0 < length p.threads
    → p.loop_index < 2 ^ 31
    → get_elem? p.threads (p.loop_index % length p.threads) ≡ some x
    → (get_next_loop p).0 ≡ some x
unfolding get_next_loop
get_next_loop-found p x some_threads small found = ground (arith, some_threads, small, found)

-- The call of GetNextLoop after n others gives a loop of the pool, the one at the place of the
-- counter and n more, around the pool; the pool has threads, and the counter does not exceed an
-- int32_t.
pub get_next_loop-turns :
    (n : ℕ) (p : EventLoopThreadPool)
    → 0 < length p.threads
    → p.loop_index + n < 2 ^ 31
    → (x : ℕ) × ((get_next_loop (after_calls n p)).0 ≡ some x)
      × (get_elem? p.threads ((p.loop_index + n) % length p.threads) ≡ some x)
get_next_loop-turns n p some_threads h =
    let (index, same) = after_calls-get_next_loop n p h in
    let (x, found) =
      get_elem_in p.threads ((p.loop_index + n) % length p.threads)
        (mod-lt (p.loop_index + n) some_threads) in
    let some_threads' : 0 < length (after_calls n p).threads =
      omega (arith, some_threads, ap length same) in
    let small : (after_calls n p).loop_index < 2 ^ 31 = omega (arith, index, h) in
    let found' : get_elem? (after_calls n p).threads
          ((after_calls n p).loop_index % length (after_calls n p).threads)
        ≡ some x =
      ap₂ (λ ts i. get_elem? ts (i % length ts)) same index ∙ found in
    (x, get_next_loop-found (after_calls n p) x some_threads' small found', found)
