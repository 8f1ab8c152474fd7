-- ===== src/System/Polls.antt =====
-- The polls of a connection's own task, in a server that got there from its start.
use sui_http.Prelude.{
  All-of_each, ℕ, ◌≡◌, refl, sym, subst, ◌==◌, ==_iff, Bool, Option, none, some, List, [], ◌∷◌, All,
  arith, Bool-cases, inl, inr,
}
use sui_http.Config.{Config}
use sui_http.Connection.Info.{ConnectionId}
use sui_http.Connection.Registry.{lookup, keys, Distinct}
use sui_http.Connection.Drive.{Wake, Drive, wake_up}
use sui_http.Connection.Drive.Rounds.{Ends}
use sui_http.Server
use sui_http.Server.{Server}
use sui_http.Server.Tasks.{Work}
use sui_http.Server.Steps.{Reaches}
use sui_http.Server.Drain.Ways.{Reaches-trans}
use sui_http.Server.Tracked.{Tracked, Reaches-Tracked}
use sui_http.Server.Tracked.Entries.{keys-entries}
use sui_http.Server.Loop
use sui_http.Server.Loop.Gone.{Gone}
use sui_http.System.{
  System, Happening, selects, awaits, shakes, triggers, closes, wakes, panics, drive_or, token,
  work_of, poll_task, happen, run,
}
use sui_http.System.Runs.{IsNew, NewAll, happen-Reaches}
use sui_http.System.Works.{idle-Absent, work_of-limits}
use sui_http.System.Known.{
  SparesId, InTime, InTime-any, Known, serve-Known, poll_task-Gone, poll_task-other, on_turn-Known,
  panic_task-Known,
}

module _ {A I S Certs E : Type 0} (f : S → Option Certs) (config : Config) (tls : Bool)
    (local_addr : A) where
  -- A server on its way from its start.
  abbrev pub OnWay : System A I S Certs E → Type 0
  OnWay y = Reaches f (Server.start config tls local_addr) y.server

  pub OnWay-Distinct : (y : System A I S Certs E) → OnWay y → Distinct (keys y.server.connections)
  unfolding Tracked
  OnWay-Distinct y r =
      subst Distinct (keys-entries y.server.connections)
        (Reaches-Tracked f config tls local_addr y.server r).1

module _ {A I S Certs E H : Type 0} (f : S → Option Certs) (config : Config) (tls : Bool)
    (local_addr : A) where
  pub happen-OnWay :
      (h : Happening A I S E H) (y : System A I S Certs E)
      → IsNew h y
      → OnWay f config tls local_addr y
      → OnWay f config tls local_addr (happen f h y)
  happen-OnWay h y new r = Reaches-trans f _ _ _ r (happen-Reaches f h y new)

  pub run-OnWay :
      (hs : List (Happening A I S E H)) (y : System A I S Certs E)
      → NewAll f hs y
      → OnWay f config tls local_addr y
      → OnWay f config tls local_addr (run f hs y)
  unfolding run
  run-OnWay [] y new r = r
  run-OnWay (h ∷ hs) y (n, new) r = run-OnWay hs (happen f h y) new (happen-OnWay h y n r)

module _ {A I S Certs E H : Type 0} (f : S → Option Certs) (config : Config) (tls : Bool)
    (local_addr : A) (id : ConnectionId) where
  -- A poll at `w`: it is enough to know how a wake-up of the task's state ends, with the limits of
  -- the configuration.
  module _ (P : Drive → Type 0) (w : Wake H) (y : System A I S Certs E)
      (r : OnWay f config tls local_addr y)
      (ends : Ends P
        (λ _ _. Unit {0})
        (wake_up config.max_connection_age_grace w
          (drive_or config.max_connection_age (lookup id y.drives)))) where
    pub polled :
        (o : Option (Work A Certs))
        → work_of id y.server.connection_handlers ≡ o
        → Known P id (poll_task id w o y)
    unfolding poll_task
    polled none e = inl (idle-Absent f config tls local_addr y.server r id e)
    polled (some work) e =
        let (age, grace) = work_of-limits f config tls local_addr y.server r id work e in
        on_turn-Known P id _ y (OnWay-Distinct f config tls local_addr y r) (
          subst
            (λ a.
              Ends P (λ _ _. Unit {0})
                (wake_up work.max_connection_age_grace w (drive_or a (lookup id y.drives))))
            (sym age)
            (subst
              (λ g.
                Ends P (λ _ _. Unit {0})
                  (wake_up g w (drive_or config.max_connection_age (lookup id y.drives))))
              (sym grace) ends))

  -- What each wake-up at a time with `C` keeps, everything keeps that gives the id to no new
  -- connection.
  module _ (P : Drive → Type 0) (C : ℕ → Type 0)
      (keeps : (w : Wake H) (d : Drive)
        → C w.now
        → P d
        → Ends P (λ _ _. Unit {0}) (wake_up config.max_connection_age_grace w d)) where
    own_poll :
        (w : Wake H) (y : System A I S Certs E)
        → OnWay f config tls local_addr y
        → C w.now
        → Known P id y
        → Known P id (poll_task id w (work_of id y.server.connection_handlers) y)
    own_poll w y r c (inl h) = inl (poll_task-Gone id id w _ y h)
    own_poll w y r c (inr (d, e, p)) =
        polled P w y r
          (subst
            (λ o.
              Ends P (λ _ _. Unit {0})
                (wake_up config.max_connection_age_grace w (drive_or config.max_connection_age o)))
            (sym e) (keeps w d c p))
          (work_of id y.server.connection_handlers) refl

    happen-Known :
        (h : Happening A I S E H) (y : System A I S Certs E)
        → OnWay f config tls local_addr y
        → SparesId id h
        → InTime C h
        → Known P id y
        → Known P id (happen f h y)
    unfolding happen
    happen-Known (selects b) y r spares c k = serve-Known P id f (Loop.selects b) y spares k
    happen-Known (awaits now) y r spares c k = serve-Known P id f (Loop.wakes now) y tt k
    happen-Known (shakes j now p) y r spares c k = serve-Known P id f (Loop.shakes j now p) y tt k
    happen-Known triggers y r spares c k = serve-Known P id f Loop.triggers y tt k
    happen-Known (closes j) y r spares c k = serve-Known P id f (Loop.closes j) y tt k
    happen-Known (wakes j now conn first) y r spares c k = elim (Bool-cases (j == id)) [
      | inl same ↦
          subst
            (λ k. Known P id (
              poll_task k
                (record { now = now; cancelled = token j y.server; conn = conn; first = first })
                (work_of k y.server.connection_handlers) y))
            (sym ((==_iff j id).0 same)) (own_poll _ y r c k)
      | inr other ↦ poll_task-other P id j _ _ y (ground arith) k
    ]
    happen-Known (panics j) y r spares c k =
        panic_task-Known P id j _ y (OnWay-Distinct f config tls local_addr y r) k

    pub run-Known :
        (hs : List (Happening A I S E H)) (y : System A I S Certs E)
        → OnWay f config tls local_addr y
        → NewAll f hs y
        → All (SparesId id) hs
        → All (InTime C) hs
        → Known P id y
        → Known P id (run f hs y)
    unfolding run
    run-Known [] y r new spares c k = k
    run-Known (h ∷ hs) y r (n, new) (s, spares) (t, c) k =
        run-Known hs (happen f h y) (happen-OnWay f config tls local_addr h y n r) new spares c
          (happen-Known h y r s t k)

  -- Who is gone stays gone.
  pub run-Gone :
      (hs : List (Happening A I S E H)) (y : System A I S Certs E)
      → OnWay f config tls local_addr y
      → NewAll f hs y
      → All (SparesId id) hs
      → Gone id y.server
      → Gone id (run f hs y).server
  run-Gone hs y r new spares gone =
      elim (run-Known (λ _. ⊥) (λ _. Unit {0}) (λ w d t bad. absurd bad) hs y r new spares
        (All-of_each (InTime (λ _. Unit {0})) hs InTime-any) (inl gone)) [
          | inl h ↦ h
          | inr (d, e, bad) ↦ absurd bad
        ]
