-- ===== src/Eevdf/Reaping.antt =====
-- What EEVDFCleanupTerminatedProcess does to the slots that wait.
use mathlib.Core.Path.{subst₂}
use void_frame.Prelude.{
  ℕ, zero, suc, ◌≤◌, ◌≡◌, inl, inr, refl, sym, ap, subst, ◌∙◌, Bool, true, not, ◌&&◌, List, [], ◌∷◌,
  ◌==◌, arith, tabulate, Bool-cases,
}
use void_frame.Eevdf.State.{Scheduler}
use void_frame.Eevdf.Slots.{remove_from_termination_queue}
use void_frame.Eevdf.Terminate.{
  reap, cleanup_loop, cleanup_terminated_process, cleanup_max_per_call,
}
use void_frame.Eevdf.Ring.{waiting, waiting_slot, removed, removed-waiting}
use void_frame.Eevdf.Reap.{
  zombies, without, reaped_of, rest_of, IsTable, Cleans, first_slot, unless, round, cleanup_step,
  reap-IsTable, removed-IsTable, reap-zombies, keeps, Cleans-reap, Cleans-removed, round-dead,
  round-alive, reaped-dead, reaped-alive,
}

Cleans-eq :
    (s : Scheduler) {u u' : Scheduler} {d d' r r' : List ℕ}
    → u' ≡ u
    → d' ≡ d
    → r' ≡ r
    → Cleans s u d r
    → Cleans s u' d' r'
Cleans-eq s {u = u} {d' = d'} {r' = r'} e f g c =
    subst (λ v. Cleans s v d' r') (sym e) (subst₂ (λ a b. Cleans s u a b) (sym f) (sym g) c)

cleans :
    (n : ℕ) (s : Scheduler) (left : ℕ) (z : ℕ → Bool)
    → IsTable s
    → s.term_queue_count ≡ n
    → ((k : ℕ) → z k ≡ zombies s k)
    → Cleans s (cleanup_loop n s left) (reaped_of z left (waiting s)) (rest_of z left (waiting s))
unfolding cleanup_loop reaped_of rest_of
cleans zero s zero z w e same = keeps s w
cleans (suc n) s zero z w e same = keeps s w
cleans zero s (suc left) z w e same =
    let idle : waiting s ≡ [] = ap (λ k. tabulate k (waiting_slot s)) e in
    subst (λ ws. Cleans s s (reaped_of z (suc left) ws) (rest_of z (suc left) ws)) (sym idle)
      (record { ring = w.ring; waits = idle; blocks = λ k. refl; bits = λ k. refl })
cleans (suc n) s (suc left) z w e same =
    let x = first_slot s in
    let t = removed s n in
    let (v, h) = removed-IsTable s n w e in
    let (v', waits, counted) = reap-IsTable t x v in
    subst
      (λ ws.
        Cleans s (cleanup_loop (suc n) s (suc left)) (reaped_of z (suc left) ws)
          (rest_of z (suc left) ws))
      (sym (removed-waiting s n w.ring e))
      (elim (Bool-cases (z x)) [
        | inl dead ↦
            let z' = without z x in
            let same' : (k : ℕ) → z' k ≡ zombies (reap t x) k =
              λ k. ap (λ b. b && not (k == x)) (same k) ∙ sym (reap-zombies t x k v.slots h) in
            let rest = cleans n (reap t x) left z' v' counted same' in
            let u = cleanup_loop n (reap t x) left in
            let (spec, spec') = reaped-dead z left x (waiting t) dead in
            Cleans-eq s
              (cleanup_step s n n left w.ring e ∙ round-dead n left x t h (sym (same x) ∙ dead))
              spec spec'
              (Cleans-removed s u n (x ∷ reaped_of z' left (waiting t))
                (rest_of z' left (waiting t))
                (Cleans-reap t u x (reaped_of z' left (waiting t)) (rest_of z' left (waiting t)) v h
                  (subst (λ ws. Cleans (reap t x) u (reaped_of z' left ws) (rest_of z' left ws))
                    waits rest)))
        | inr alive ↦
            let rest = cleans n t (suc left) z v refl same in
            let u = cleanup_loop n t (suc left) in
            let (spec, spec') = reaped-alive z left x (waiting t) alive in
            Cleans-eq s
              (cleanup_step s n n left w.ring e ∙ round-alive n left x t h (sym (same x) ∙ alive))
              spec spec'
              (Cleans-removed s u n (reaped_of z (suc left) (waiting t))
                (rest_of z (suc left) (waiting t)) rest)
      ])

-- In a table of the right sizes, the clean-up takes from the termination queue up to its third zombie, or
-- all of it; the slots of those zombies, each once, are zeroed and free, and no other slot changes.
pub cleanup_terminated_process_lem :
    (s : Scheduler)
    → IsTable s
    → Cleans s
        (cleanup_terminated_process s)
        (reaped_of (zombies s) cleanup_max_per_call (waiting s))
        (rest_of (zombies s) cleanup_max_per_call (waiting s))
unfolding cleanup_terminated_process
cleanup_terminated_process_lem s w =
    cleans s.term_queue_count s cleanup_max_per_call (zombies s) w refl (λ k. refl)

-- Rounds of the clean-up beyond as many as slots wait change nothing, so that the loop ends by itself.
pub cleanup_loop-enough :
    (n fuel : ℕ) (s : Scheduler) (left : ℕ)
    → IsTable s
    → s.term_queue_count ≡ n
    → n ≤ fuel
    → cleanup_loop fuel s left ≡ cleanup_loop n s left
unfolding cleanup_loop round
cleanup_loop-enough zero zero s left w e more = refl
cleanup_loop-enough zero (suc fuel) s zero w e more = refl
cleanup_loop-enough zero (suc fuel) s (suc left) w e more =
    ap (λ b. unless b s (round fuel left (remove_from_termination_queue s))) idle
  where
    idle : (s.term_queue_count == 0) ≡ true
    idle = ground arith
cleanup_loop-enough (suc n) zero s left w e more = absurd (omega arith)
cleanup_loop-enough (suc n) (suc fuel) s zero w e more = refl
cleanup_loop-enough (suc n) (suc fuel) s (suc left) w e more =
    let x = first_slot s in
    let t = removed s n in
    let (v, h) = removed-IsTable s n w e in
    let (v', waits, counted) = reap-IsTable t x v in
    cleanup_step s fuel n left w.ring e
    ∙ (elim (Bool-cases (zombies t x)) [
      | inl dead ↦
          round-dead fuel left x t h dead
          ∙ cleanup_loop-enough n fuel (reap t x) left v' counted (omega arith)
          ∙ sym (round-dead n left x t h dead)
      | inr alive ↦
          round-alive fuel left x t h alive
          ∙ cleanup_loop-enough n fuel t (suc left) v refl (omega arith)
          ∙ sym (round-alive n left x t h alive)
    ])
    ∙ sym (cleanup_step s n n left w.ring e)
