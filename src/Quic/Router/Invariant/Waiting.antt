-- ===== src/Quic/Router/Invariant/Waiting.antt =====
-- Sessions that are being opened, in src/portwyrm/runtime/quic_router.py: what waits and for whom.
use portwyrm.Prelude.{ℕ, ◌≡◌, ◌≤◌, ◌<◌, ◌⊎◌, true, false, arith, List, some, length, length}
use portwyrm.Prelude.Dict
use portwyrm.Prelude.Dict.{Dict}
use portwyrm.Quic.Bytes.{Bytes}
use portwyrm.Quic.Router.State.{Key, addr_eq, key_eq, Session, OpenTask, Router}

pub record WaitingFit (sessions : Dict Key Session) (pending : Dict Key (List Bytes))
    (seen : Dict Key ℕ) (opening : List Key) (tasks : Dict Key OpenTask) : Type 0 where
  pub queued : (k : Key) → Dict.member opening k ≡ true → Dict.has pending k ≡ true
  pub fresh : (k : Key) → Dict.member opening k ≡ true → Dict.has sessions k ≡ false
  pub unseen : (k : Key) → Dict.member opening k ≡ true → Dict.has seen k ≡ false
  pub task_opening : (k : Key) → Dict.has tasks k ≡ true → Dict.member opening k ≡ true
  pub task_addr : (k : Key) (t : OpenTask) → Dict.get tasks k ≡ some t → t.addr ≡ k.0
  pub few : length pending ≤ 2048
  pub short : (k : Key) (q : List Bytes) → Dict.get pending k ≡ some q → length q ≤ 8

abbrev pub HasWaiting : Router → Type 0
HasWaiting r = WaitingFit r.sessions r.pending r.pending_seen r.opening r.tasks

module _ {sessions : Dict Key Session} {pending : Dict Key (List Bytes)} {seen : Dict Key ℕ}
    {opening : List Key} {tasks : Dict Key OpenTask}
    (fit : WaitingFit sessions pending seen opening tasks) (key : Key) where
  pub WaitingFit-put :
      (q : List Bytes)
      → length q ≤ 8
      → (Dict.has pending key ≡ true) ⊎ (length pending < 2048)
      → WaitingFit sessions (Dict.put pending key q) seen opening tasks
  WaitingFit-put q small room = record {
    queued = λ k h. ground (arith, Dict.get-put pending key k q, fit.queued k);
    fresh = fit.fresh;
    unseen = fit.unseen;
    task_opening = fit.task_opening;
    task_addr = fit.task_addr;
    few =
        let bound = fit.few in
        ground (arith, Dict.length-put-le pending key q, Dict.length-put_of_has pending key q);
    short = λ k l h. ground (arith, Dict.get-put pending key k q, fit.short k l);
  }

  pub WaitingFit-drop :
      Dict.member opening key ≡ false
      → WaitingFit sessions (Dict.pop pending key) (Dict.pop seen key) opening tasks
  WaitingFit-drop idle = record {
    queued = λ k h. ground (arith, Dict.get-pop pending key k, key_eq.beq_iff key k, fit.queued k);
    fresh = fit.fresh;
    unseen = λ k h. ground (arith, Dict.get-pop seen key k, fit.unseen k);
    task_opening = fit.task_opening;
    task_addr = fit.task_addr;
    few = let bound = fit.few in omega (arith, Dict.length-pop-le pending key);
    short = λ k l h. ground (arith, Dict.get-pop pending key k, fit.short k l);
  }

  pub WaitingFit-see :
      (now : ℕ)
      → Dict.member opening key ≡ false
      → WaitingFit sessions pending (Dict.put seen key now) opening tasks
  WaitingFit-see now idle = record {
    queued = fit.queued;
    fresh = fit.fresh;
    unseen = λ k h. ground (arith, Dict.get-put seen key k now, key_eq.beq_iff key k, fit.unseen k);
    task_opening = fit.task_opening;
    task_addr = fit.task_addr;
    few = fit.few;
    short = fit.short;
  }

  pub WaitingFit-unsee : WaitingFit sessions pending (Dict.pop seen key) opening tasks
  WaitingFit-unsee = record {
    queued = fit.queued;
    fresh = fit.fresh;
    unseen = λ k h. ground (arith, Dict.get-pop seen key k, fit.unseen k);
    task_opening = fit.task_opening;
    task_addr = fit.task_addr;
    few = fit.few;
    short = fit.short;
  }

  pub WaitingFit-spawn :
      (task : OpenTask)
      → Dict.has pending key ≡ true
      → Dict.has sessions key ≡ false
      → Dict.has seen key ≡ false
      → task.addr ≡ key.0
      → WaitingFit sessions pending seen (Dict.add opening key) (Dict.put tasks key task)
  WaitingFit-spawn task waits new unknown same = record {
    queued =
        λ k h. ground (arith, Dict.member-add opening key k, key_eq.beq_iff key k, fit.queued k);
    fresh = λ k h. ground (arith, Dict.member-add opening key k, key_eq.beq_iff key k, fit.fresh k);
    unseen =
        λ k h. ground (arith, Dict.member-add opening key k, key_eq.beq_iff key k, fit.unseen k);
    task_opening = λ k h. ground (
      arith,
      Dict.member-add opening key k,
      Dict.get-put tasks key k task,
      key_eq.beq_iff key k,
      fit.task_opening k,
    );
    task_addr = λ k t h.
        ground (arith, Dict.get-put tasks key k task, key_eq.beq_iff key k, fit.task_addr k t);
    few = fit.few;
    short = fit.short;
  }

  -- A running task of the key is replaced.
  pub WaitingFit-task :
      (old task : OpenTask)
      → Dict.get tasks key ≡ some old
      → task.addr ≡ old.addr
      → WaitingFit sessions pending seen opening (Dict.put tasks key task)
  WaitingFit-task old task there same = record {
    queued = fit.queued;
    fresh = fit.fresh;
    unseen = fit.unseen;
    task_opening = λ k h.
        ground (arith, Dict.get-put tasks key k task, key_eq.beq_iff key k, fit.task_opening k);
    task_addr = λ k t h. ground (
      arith,
      Dict.get-put tasks key k task,
      key_eq.beq_iff key k,
      fit.task_addr k t,
      fit.task_addr k old,
    );
    few = fit.few;
    short = fit.short;
  }

  pub WaitingFit-finish :
      WaitingFit sessions pending seen (Dict.discard opening key) (Dict.pop tasks key)
  WaitingFit-finish = record {
    queued = λ k h. ground (arith, Dict.member-discard opening key k, fit.queued k);
    fresh = λ k h. ground (arith, Dict.member-discard opening key k, fit.fresh k);
    unseen = λ k h. ground (arith, Dict.member-discard opening key k, fit.unseen k);
    task_opening = λ k h.
        ground
          (arith, Dict.member-discard opening key k, Dict.get-pop tasks key k, fit.task_opening k);
    task_addr = λ k t h. ground (arith, Dict.get-pop tasks key k, fit.task_addr k t);
    few = fit.few;
    short = fit.short;
  }

  -- A session is written whose key is not being opened, or that was there before.
  pub WaitingFit-session :
      (s : Session)
      → (Dict.member opening key ≡ false) ⊎ (Dict.has sessions key ≡ true)
      → WaitingFit (Dict.put sessions key s) pending seen opening tasks
  WaitingFit-session s known = record {
    queued = fit.queued;
    fresh = λ k h. ground (arith, Dict.get-put sessions key k s, key_eq.beq_iff key k, fit.fresh k);
    unseen = fit.unseen;
    task_opening = fit.task_opening;
    task_addr = fit.task_addr;
    few = fit.few;
    short = fit.short;
  }

  pub WaitingFit-unsession : WaitingFit (Dict.pop sessions key) pending seen opening tasks
  WaitingFit-unsession = record {
    queued = fit.queued;
    fresh = λ k h. ground (arith, Dict.get-pop sessions key k, fit.fresh k);
    unseen = fit.unseen;
    task_opening = fit.task_opening;
    task_addr = fit.task_addr;
    few = fit.few;
    short = fit.short;
  }
