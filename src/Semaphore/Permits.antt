-- ===== src/Semaphore/Permits.antt =====
-- src/semaphore.rs: a permit that is taken, and then dropped or forgotten.
use local_sync.Prelude.{
  ℕ, ◌+◌, ◌≤◌, ◌<◌, ◌≡◌, refl, ap, subst, inl, inr, List, false, length, arith, le→ltb, done, ok,
  Returns, Returns-mono,
}
use local_sync.LinkedList.{Ptr}
use local_sync.Semaphore.Word.{max_permits, shl}
use local_sync.Semaphore.Inner.{Inner, is_closed, available_permits}
use local_sync.Semaphore.Release.{release}
use local_sync.Semaphore.WellFormed.{
  WellFormed, spend, spend-WellFormed, try_acquire_cases, release-WellFormed,
}
use local_sync.Semaphore.Queued.{serve_left}
use local_sync.Semaphore.Public.{try_acquire_many, drop_permit, forget, add_permits}

module _ (n : ℕ) (s : Inner) (ws : List Ptr) (w : WellFormed s ws) (free : is_closed s ≡ false)
    (room : n ≤ available_permits s) (small : n ≤ max_permits) where
  pub try_acquire_many-spend : try_acquire_many n s ≡ done (ok (record { permits = n }), spend n s)
  unfolding try_acquire_many
  try_acquire_many-spend =
      rw ((try_acquire_cases n s).1 small, free, le→ltb (available_permits s) n room) refl

  -- On an open semaphore that meets the invariant and has `n` permits available, at most the
  -- maximum: `try_acquire_many n` gives a permit of `n` and lowers what is available by `n`; with
  -- enough fuel the drop of the permit returns, the counter is as before, and the same futures
  -- wait.
  pub try_acquire_many-drop_permit :
      (fuel : ℕ)
      → length ws + 1 < fuel
      → (t : Inner) × (try_acquire_many n s ≡ done (ok (record { permits = n }), t))
        × (available_permits t + n ≡ available_permits s)
        × Returns
            (λ u. (u.permits ≡ s.permits) × WellFormed u ws)
            (drop_permit fuel (record { permits = n }) t)
  unfolding drop_permit add_permits available_permits
  try_acquire_many-drop_permit fuel enough =
      let (wt, sum) = spend-WellFormed n s ws room w in
      let (all_left, all_rem, _) =
        serve_left n s.nodes ws w.waits.needy
          (elim w.busy [ inl e ↦ inl e | inr e ↦ inr (omega arith) ]) in
      (
        spend n s,
        try_acquire_many-spend,
        sum,
        Returns-mono
            (release-WellFormed fuel n (spend n s) ws wt small (omega (arith, w.fits)) enough)
            λ u (g, wf). (
              omega (arith, g.permits, ap (λ k. shl k) all_rem, w.fits),
              subst (WellFormed u) all_left wf,
            ),
      )

  -- On an open semaphore that meets the invariant and has `n` permits available, at most the
  -- maximum: when the permit that `try_acquire_many n` gives is forgotten the semaphore does not
  -- change, so `n` permits fewer are available than before, and the invariant holds.
  pub try_acquire_many-forget :
      (fuel : ℕ)
      → (t : Inner) × (try_acquire_many n s ≡ done (ok (record { permits = n }), t))
        × (forget fuel (record { permits = n }) t ≡ done t)
        × WellFormed t ws
        × (available_permits t + n ≡ available_permits s)
  unfolding forget drop_permit add_permits release available_permits
  try_acquire_many-forget fuel =
      let (wt, sum) = spend-WellFormed n s ws room w in
      (spend n s, try_acquire_many-spend, refl, wt, sum)
