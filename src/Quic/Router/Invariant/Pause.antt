-- ===== src/Quic/Router/Invariant/Pause.antt =====
-- The pause of the public socket, in src/portwyrm/runtime/quic_router.py.
use portwyrm.Prelude.{
  ℕ, ◌+◌, ◌≡◌, ◌&&◌, Bool, true, false, arith, List, if◌then◌else◌, ◌==◌, nat_eq, length, is_empty,
  Bool-cases, inl, inr,
}
use portwyrm.Prelude.Dict
use portwyrm.Prelude.Dict.{Dict}
use portwyrm.Quic.Router.State.{Key, key_eq, Session, Router}
use portwyrm.Quic.Router.Sessions.{release_ingress_pause, pause_ingress_for_first_upstream}

-- Reading is paused only while an open session is waited for, and each of those has a timer that
-- will end its wait.
pub record PauseFit (attached paused : Bool) (sessions : Dict Key Session) (awaiting : List Key)
    (timers : Dict Key ℕ) : Type 0 where
  pub attached_lem : attached ≡ true
  pub reading : paused ≡ true → is_empty awaiting ≡ false
  pub timed : (k : Key) → Dict.member awaiting k ≡ Dict.has timers k
  pub awaited : (k : Key) → Dict.member awaiting k ≡ true → Dict.has sessions k ≡ true

abbrev pub HasPause : Router → Type 0
HasPause r =
    PauseFit r.attached r.paused r.sessions r.awaiting_first_upstream r.ingress_pause_timers

-- The end of a wait changes the pause, the waiting keys and the timers, and nothing else.
pub release_ingress_pause_lem :
    (key : Key) (r : Router) (sessions : Dict Key Session)
    → PauseFit r.attached r.paused sessions r.awaiting_first_upstream r.ingress_pause_timers
    → (p : Bool) × (w : List Key) × (t : Dict Key ℕ) × (release_ingress_pause key r
        ≡ record r { paused = p; awaiting_first_upstream = w; ingress_pause_timers = t })
      × PauseFit r.attached p sessions w t
      × (Dict.member w key ≡ false)
unfolding release_ingress_pause
release_ingress_pause_lem key r sessions fit =
    elim (Bool-cases (Dict.member r.awaiting_first_upstream key)) [
      | inr idle ↦ (
        r.paused,
        r.awaiting_first_upstream,
        r.ingress_pause_timers,
        rw (idle, release_ingress_pause),
        fit,
        idle,
      )
      | inl waits ↦
          let w = Dict.discard r.awaiting_first_upstream key in
          (
            (if is_empty w && r.attached then false else r.paused),
            w,
            Dict.pop r.ingress_pause_timers key,
            rw (waits, release_ingress_pause),
            record {
              attached_lem = fit.attached_lem;
              reading = λ h. let a = fit.attached_lem in ground arith;
              timed = λ k. ground (
                arith,
                Dict.member-discard r.awaiting_first_upstream key k,
                Dict.get-pop r.ingress_pause_timers key k,
                fit.timed k,
              );
              awaited = λ k h.
                  ground
                    (arith, Dict.member-discard r.awaiting_first_upstream key k, fit.awaited k);
            },
            ground (
              arith,
              Dict.member-discard r.awaiting_first_upstream key key,
              key_eq.beq_iff key key,
            ),
          )
    ]

pub pause_ingress_lem :
    (now : ℕ) (key : Key) (r : Router)
    → HasPause r
    → Dict.has r.sessions key ≡ true
    → (p : Bool) × (w : List Key) × (t : Dict Key ℕ) × (pause_ingress_for_first_upstream now key r
        ≡ record r { paused = p; awaiting_first_upstream = w; ingress_pause_timers = t })
      × PauseFit r.attached p r.sessions w t
unfolding pause_ingress_for_first_upstream
pause_ingress_lem now key r fit there =
    elim (Bool-cases (Dict.member r.awaiting_first_upstream key)) [
      | inl waits ↦ (
        r.paused,
        r.awaiting_first_upstream,
        r.ingress_pause_timers,
        rw (waits, pause_ingress_for_first_upstream),
        fit,
      )
      | inr idle ↦
          let w = Dict.add r.awaiting_first_upstream key in
          (
            (if length w == 1 && r.attached then true else r.paused),
            w,
            Dict.put r.ingress_pause_timers key (now + 250),
            rw (idle, pause_ingress_for_first_upstream),
            record {
              attached_lem = fit.attached_lem;
              reading = λ h. Dict.is_empty-add r.awaiting_first_upstream key;
              timed = λ k. ground (
                arith,
                Dict.member-add r.awaiting_first_upstream key k,
                Dict.get-put r.ingress_pause_timers key k (now + 250),
                fit.timed k,
              );
              awaited = λ k h. ground (
                arith,
                Dict.member-add r.awaiting_first_upstream key k,
                key_eq.beq_iff key k,
                fit.awaited k,
              );
            },
          )
    ]

module _ {attached paused : Bool} {sessions : Dict Key Session} {awaiting : List Key}
    {timers : Dict Key ℕ} (fit : PauseFit attached paused sessions awaiting timers)
    (key : Key) where
  pub PauseFit-session :
      (s : Session) → PauseFit attached paused (Dict.put sessions key s) awaiting timers
  PauseFit-session s = record {
    attached_lem = fit.attached_lem;
    reading = fit.reading;
    timed = fit.timed;
    awaited = λ k h. ground (arith, Dict.get-put sessions key k s, fit.awaited k);
  }

  pub PauseFit-unsession :
      Dict.member awaiting key ≡ false
      → PauseFit attached paused (Dict.pop sessions key) awaiting timers
  PauseFit-unsession idle = record {
    attached_lem = fit.attached_lem;
    reading = fit.reading;
    timed = fit.timed;
    awaited =
        λ k h. ground (arith, Dict.get-pop sessions key k, key_eq.beq_iff key k, fit.awaited k);
  }
