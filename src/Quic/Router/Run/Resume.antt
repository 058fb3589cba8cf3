-- ===== src/Quic/Router/Run/Resume.antt =====
-- The pause of the public socket ends, in src/portwyrm/runtime/quic_router.py.
use portwyrm.Prelude.{
  ℕ, ◌≡◌, true, false, refl, arith, List, [], ◌∷◌, ◌==◌, if◌then◌else◌, Bool-cases, inl, inr,
  is_empty,
}
use portwyrm.Prelude.Dict
use portwyrm.Prelude.Dict.{Dict}
use portwyrm.Quic.Header.{Primitives}
use portwyrm.Quic.Router.State.{Key, key_eq, Router}
use portwyrm.Quic.Router.Sessions.{release_ingress_pause}
use portwyrm.Quic.Router.Invariant.Consistent.{IsConsistent}
use portwyrm.Quic.Router.Run.{Event, timer, run, step}
use portwyrm.Quic.Router.Run.Safety.{step-IsConsistent}

-- The timers that run fire one after the other.
abbrev pub firings : Dict Key ℕ → List Event
firings [] = []
firings ((key, due) ∷ timers) = timer key ∷ firings timers

release_waits :
    (key k : Key) (r : Router)
    → Dict.member (release_ingress_pause key r).awaiting_first_upstream k
      ≡ (if key == k then false else Dict.member r.awaiting_first_upstream k)
unfolding release_ingress_pause
release_waits key k r =
    ground (arith, Dict.member-discard r.awaiting_first_upstream key k, key_eq.beq_iff key k)

none_waits : (keys : List Key) → ((k : Key) → Dict.member keys k ≡ false) → is_empty keys ≡ true
unfolding Dict.member
none_waits [] h = refl
none_waits (key ∷ keys) h = ground (arith, h key, key_eq.beq_iff key key)

module _ (p : Primitives) where
  all_fired :
      (timers : Dict Key ℕ) (r : Router)
      → IsConsistent r
      → ((k : Key) → Dict.member r.awaiting_first_upstream k ≡ true → Dict.has timers k ≡ true)
      → (run p (firings timers) r).paused ≡ false
  unfolding run step Dict.get
  all_fired [] r fit h = elim (Bool-cases r.paused) [
    | inr reading ↦ reading
    | inl pauses ↦
        let held = fit.pause.reading pauses in
        let none_held = none_waits r.awaiting_first_upstream (λ k. ground (arith, h k)) in cc
  ]
  all_fired ((key, due) ∷ timers) r fit h =
      all_fired timers (release_ingress_pause key r) (step-IsConsistent p (timer key) r fit)
        (λ k waits. ground (arith, release_waits key k r, h k))

  -- In a consistent state, once every timer that runs has fired, and with no other event between,
  -- the public socket is read again.
  pub timers-resume :
      (r : Router) → IsConsistent r → (run p (firings r.ingress_pause_timers) r).paused ≡ false
  timers-resume r fit =
      all_fired r.ingress_pause_timers r fit (λ k waits. ground (arith, fit.pause.timed k))
