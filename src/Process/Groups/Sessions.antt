-- ===== src/Process/Groups/Sessions.antt =====
-- Process groups lie in one session: `process_setpgid` keeps this, `process_setsid` not always.
use thunderos.Prelude.{
  ℕ, ◌<◌, ◌≡◌, ◌≢◌, ◌⊎◌, inl, inr, refl, ap, sym, ◌∙◌, subst, Option, none, some, true, false, ◌==◌,
  ◌↔◌, not, ◌&&◌, if◌then◌else◌, Bool-cases, Option-cases, ℕ_discrete, arith,
}
use thunderos.Prelude.First.{missing, found, first_from-Found}
use thunderos.Errno.{Reply, ok, err, esrch, eperm}
use thunderos.Process.Groups.{
  Procs, is_live, is_child, max_procs, any_pid, process_get, group_in_session, set_group,
  process_setpgid, process_setsid, set_field,
}

-- Live processes have different pids; a group lies in one session; and a group with the pid of a live
-- process as its number lies in the session of that process.
pub record IsOrderly (p : Procs) : Type 0 where
  pub own_pid :
      (i j : ℕ)
      → i < max_procs
      → j < max_procs
      → is_live p i ≡ true
      → is_live p j ≡ true
      → p.pid i ≡ p.pid j
      → i ≡ j
  pub one_session :
      (i j : ℕ)
      → i < max_procs
      → j < max_procs
      → is_live p i ≡ true
      → is_live p j ≡ true
      → p.pgid i ≡ p.pgid j
      → p.sid i ≡ p.sid j
  pub named :
      (i j : ℕ)
      → i < max_procs
      → j < max_procs
      → is_live p i ≡ true
      → is_live p j ≡ true
      → p.pgid i ≡ p.pid j
      → p.sid i ≡ p.sid j

-- A process that joins a group of its session, or the one with its own pid, keeps the order.
module _ (p : Procs) (o : IsOrderly p) (t : ℕ) (inside : t < max_procs)
    (live : is_live p t ≡ true) where
  join :
      (g : ℕ)
      → ((j : ℕ) → j < max_procs → is_live p j ≡ true → p.pgid j ≡ g → p.sid j ≡ p.sid t)
      → ((j : ℕ) → j < max_procs → is_live p j ≡ true → p.pid j ≡ g → p.sid j ≡ p.sid t)
      → IsOrderly (record p { pgid = set_field p.pgid t g })
  join g members leader = record {
    own_pid = o.own_pid;
    one_session = λ i j a b c d e. elim (ℕ_discrete t i) [
      | yes ei ↦ elim (ℕ_discrete t j) [
        | yes ej ↦ ap p.sid (sym ei ∙ ej)
        | no nj ↦ ap p.sid (sym ei) ∙ sym (members j b d (ground (arith, e, ei, nj)))
      ]
      | no ni ↦ elim (ℕ_discrete t j) [
        | yes ej ↦ members i a c (ground (arith, e, ni, ej)) ∙ ap p.sid ej
        | no nj ↦ o.one_session i j a b c d (ground (arith, e, ni, nj))
      ]
    ];
    named = λ i j a b c d e. elim (ℕ_discrete t i) [
      | yes ei ↦ ap p.sid (sym ei) ∙ sym (leader j b d (ground (arith, e, ei)))
      | no ni ↦ o.named i j a b c d (ground (arith, e, ni))
    ];
  }

-- What the loops over the table find.
process_get-found :
    (p : Procs) (pid t : ℕ)
    → process_get p pid ≡ some t
    → (t < max_procs) × (is_live p t ≡ true) × (p.pid t ≡ pid)
unfolding process_get
process_get-found p pid t h =
    elim (first_from-Found (λ i. (p.pid i == pid) && is_live p i) max_procs 0) [
      | missing f e ↦ cc (e, h)
      | found m a b s f e ↦
          let same : m ≡ t = cc (e, h) in
          (
            subst (λ x. x < max_procs) same (omega (arith, b)),
            subst (λ x. is_live p x ≡ true) same (ground (arith, s)),
            subst (λ x. p.pid x ≡ pid) same (ground (arith, s)),
          )
    ]

group_in_session-found :
    (p : Procs) (pgid sid m : ℕ)
    → group_in_session p pgid sid ≡ some m
    → (m < max_procs) × (is_live p m ≡ true) × (p.pgid m ≡ pgid) × (p.sid m ≡ sid)
group_in_session-found p pgid sid m h =
    elim (first_from-Found (λ i. is_live p i && (p.pgid i == pgid) && (p.sid i == sid)) max_procs
      0) [
        | missing f e ↦ cc (e, h)
        | found n a b s f e ↦
            let same : n ≡ m = cc (e, h) in
            (
              subst (λ x. x < max_procs) same (omega (arith, b)),
              subst (λ x. is_live p x ≡ true) same (ground (arith, s)),
              subst (λ x. p.pgid x ≡ pgid) same (ground (arith, s)),
              subst (λ x. p.sid x ≡ sid) same (ground (arith, s)),
            )
      ]

-- The group that a process may join: the one with its own pid, or one of its session.
abbrev pub MayJoin : Procs → ℕ → ℕ → Type 0
MayJoin p t g =
    (p.pid t ≡ g)
    ⊎ ((m : ℕ) × (m < max_procs) × (is_live p m ≡ true) × (p.pgid m ≡ g) × (p.sid m ≡ p.sid t))

join-MayJoin :
    (p : Procs) (t g : ℕ)
    → IsOrderly p
    → t < max_procs
    → is_live p t ≡ true
    → MayJoin p t g
    → IsOrderly (record p { pgid = set_field p.pgid t g })
join-MayJoin p t g o inside live may = elim may [
  | inl own ↦
      join p o t inside live g (λ j a l e. o.named j t a inside l live (e ∙ sym own))
        (λ j a l e. ap p.sid (o.own_pid j t a inside l live (e ∙ sym own)))
  | inr (m, b, k, group, session) ↦
      join p o t inside live g (λ j a l e. o.one_session j m a b l k (e ∙ sym group) ∙ session)
        (λ j a l e. sym (o.named m j b a k l (group ∙ sym e)) ∙ session)
]

-- The ends of `process_setpgid`.
pub data SetEnds (p : Procs) (r : Reply × Procs) : Type 0 where
  refused : (e : ℕ) → (e ≡ esrch) ⊎ (e ≡ eperm) → r ≡ (err e, p) → SetEnds p r
  moved :
      (c t g : ℕ)
      → p.current ≡ some c
      → (t ≡ c) ⊎ (is_child p c t ≡ true)
      → p.pid t ≢ p.sid t
      → MayJoin p t g
      → r ≡ (ok 0, record p { pgid = set_field p.pgid t g })
      → IsOrderly r.1
      → SetEnds p r

module _ (p : Procs) (o : IsOrderly p) (c t target_pid g : ℕ) (now : p.current ≡ some c)
    (got : process_get p target_pid ≡ some t) where
  moved-MayJoin :
      (t ≡ c) ⊎ (is_child p c t ≡ true)
      → (p.pid t == p.sid t) ≡ false
      → MayJoin p t g
      → SetEnds p (ok 0, record p { pgid = set_field p.pgid t g })
  moved-MayJoin kin follower may =
      let (inside, live, _) = process_get-found p target_pid t got in
      moved c t g now kin (ground (arith, follower)) may refl (join-MayJoin p t g o inside live may)

  set_group-SetEnds : SetEnds p (set_group p c t target_pid g)
  unfolding set_group
  set_group-SetEnds =
      let (inside, live, own) = process_get-found p target_pid t got in
      elim (Bool-cases (not (t == c) && not (is_child p c t))) [
        | inl stranger ↦ rw stranger (refused eperm (inr refl) refl)
        | inr kin ↦ elim (Bool-cases (p.pid t == p.sid t)) [
          | inl leader ↦ rw (kin, leader) (refused eperm (inr refl) refl)
          | inr follower ↦ elim (Bool-cases (g == target_pid)) [
            | inl same ↦
                rw (kin, follower, same)
                  (moved-MayJoin (related kin) follower (inl (ground (arith, own, same))))
            | inr differ ↦ elim (Option-cases (group_in_session p g (p.sid t))) [
              | inl e ↦ rw (kin, follower, differ, e) (refused eperm (inr refl) refl)
              | inr (m, e) ↦
                  let (b, k, group, session) = group_in_session-found p g (p.sid t) m e in
                  rw (kin, follower, differ, e)
                    (moved-MayJoin (related kin) follower (inr (m, b, k, group, session)))
            ]
          ]
        ]
      ]
    where
      related : (not (t == c) && not (is_child p c t)) ≡ false → (t ≡ c) ⊎ (is_child p c t ≡ true)
      related h = elim (ℕ_discrete t c) [ yes e ↦ inl e | no n ↦ inr (ground (arith, h, n)) ]

-- `process_setpgid`, by the current process.
abbrev setpgid_by : Procs → ℕ → ℕ → Option ℕ → Reply × Procs
setpgid_by p pid pgid none = (err esrch, p)
setpgid_by p pid pgid (some c) =
    let target_pid = if pid == 0 then p.pid c else pid in
    let new_pgid = if pgid == 0 then target_pid else pgid in
    elim (process_get p target_pid) [
      | none ↦ (err esrch, p)
      | some t ↦ set_group p c t target_pid new_pgid
    ]

setpgid-current :
    (p : Procs) (pid pgid : ℕ) (now : Option ℕ)
    → p.current ≡ now
    → process_setpgid p pid pgid ≡ setpgid_by p pid pgid now
unfolding process_setpgid
setpgid-current p pid pgid now e = ap (setpgid_by p pid pgid) e

-- In an orderly table, `process_setpgid` either fails with ESRCH or EPERM and changes nothing, or
-- moves one process, the current one or a child of it and not the leader of its session, to the
-- group with its own pid or to a group of its session, changes nothing else, and leaves an orderly
-- table: every group lies in one session.
pub process_setpgid-SetEnds :
    (p : Procs) (pid pgid : ℕ) → IsOrderly p → SetEnds p (process_setpgid p pid pgid)
process_setpgid-SetEnds p pid pgid o = elim (Option-cases p.current) [
  | inl e ↦ refused esrch (inl refl) (setpgid-current p pid pgid none e)
  | inr (c, now) ↦
      let target_pid = if pid == 0 then p.pid c else pid in
      let g = if pgid == 0 then target_pid else pgid in
      subst (SetEnds p) (sym (setpgid-current p pid pgid (some c) now))
        (elim (Option-cases (process_get p target_pid)) [
          | inl e ↦ rw (setpgid_by, e) (refused esrch (inl refl) refl)
          | inr (t, got) ↦ rw (setpgid_by, got) (set_group-SetEnds p o c t target_pid g now got)
        ])
]

-- The table as a successful `process_setsid` of `c` leaves it.
abbrev led : Procs → ℕ → Procs
led p c = record p {
  sid = set_field p.sid c (p.pid c);
  pgid = set_field p.pgid c (p.pid c);
  controlling_tty = set_field p.controlling_tty c any_pid;
}

module _ (p : Procs) (c : ℕ) (o : IsOrderly p) (inside : c < max_procs)
    (live : is_live p c ≡ true) where
  alone-IsOrderly :
      ((j : ℕ) → j < max_procs → is_live p j ≡ true → c ≢ j → p.pgid j ≢ p.pid c)
      → IsOrderly (led p c)
  alone-IsOrderly alone = record {
    own_pid = o.own_pid;
    one_session = λ i j a b k l e. elim (ℕ_discrete c i) [
      | yes ei ↦ elim (ℕ_discrete c j) [
        | yes ej ↦ ap (led p c).sid (sym ei ∙ ej)
        | no nj ↦ absurd (alone j b l nj (ground (arith, e, ei, nj)))
      ]
      | no ni ↦ elim (ℕ_discrete c j) [
        | yes ej ↦ absurd (alone i a k ni (ground (arith, e, ni, ej)))
        | no nj ↦ ground (arith, ni, nj, o.one_session i j a b k l (ground (arith, e, ni, nj)))
      ]
    ];
    named = λ i j a b k l e. elim (ℕ_discrete c i) [
      | yes ei ↦ ap (led p c).sid (sym ei ∙ o.own_pid c j inside b live l (ground (arith, e, ei)))
      | no ni ↦ elim (ℕ_discrete c j) [
        | yes ej ↦ absurd (alone i a k ni (ground (arith, e, ni) ∙ ap p.pid (sym ej)))
        | no nj ↦ ground (arith, ni, nj, o.named i j a b k l (ground (arith, e, ni)))
      ]
    ];
  }

  IsOrderly-alone :
      p.sid c ≢ p.pid c
      → IsOrderly (led p c)
      → (j : ℕ) → j < max_procs
      → is_live p j ≡ true
      → c ≢ j
      → p.pgid j ≢ p.pid c
  IsOrderly-alone other_sid after j b l nj e = other_sid (
      sym (o.named j c b inside l live e)
      ∙ ground (arith, nj, after.one_session j c b inside l live (ground (arith, nj, e))))

-- `process_setsid`, by the current process.
abbrev setsid_by : Procs → Option ℕ → Reply × Procs
setsid_by p none = (err esrch, p)
setsid_by p (some c) = if p.pgid c == p.pid c then (err eperm, p) else (ok (p.pid c), led p c)

setsid-led :
    (p : Procs) (c : ℕ)
    → p.current ≡ some c
    → p.pgid c ≢ p.pid c
    → process_setsid p ≡ (ok (p.pid c), led p c)
unfolding process_setsid
setsid-led p c now outside =
    let no_leader : (p.pgid c == p.pid c) ≡ false = ground (arith, outside) in
    ap (setsid_by p) now ∙ ap (λ b. if b then (err eperm, p) else (ok (p.pid c), led p c)) no_leader

-- `process_setsid` by a live process of an orderly table that neither is in the group nor in the
-- session with its own pid: the call succeeds with the pid, and afterwards the table is orderly
-- exactly if no other live process was in the group with that pid. If one was, the group is split
-- over two sessions.
pub process_setsid-IsOrderly :
    (p : Procs) (c : ℕ)
    → IsOrderly p
    → p.current ≡ some c
    → c < max_procs
    → is_live p c ≡ true
    → p.pgid c ≢ p.pid c
    → p.sid c ≢ p.pid c
    → let (reply, q) = process_setsid p in
      (reply ≡ ok (p.pid c))
      × (IsOrderly q ↔ ((j : ℕ) → j < max_procs → is_live p j ≡ true → c ≢ j → p.pgid j ≢ p.pid c))
process_setsid-IsOrderly p c o now inside live outside other_sid =
    subst
      (λ r.
        (r.0 ≡ ok (p.pid c))
        × (IsOrderly r.1
            ↔ ((j : ℕ) → j < max_procs → is_live p j ≡ true → c ≢ j → p.pgid j ≢ p.pid c)))
      (sym (setsid-led p c now outside))
      (refl, (IsOrderly-alone p c o inside live other_sid, alone-IsOrderly p c o inside live))
