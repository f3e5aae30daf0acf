-- ===== src/Server/Reap.antt =====
-- C/server_tcp.c, `reap`: the handler of SIGCHLD, which collects the children that have ended.
-- C/server_unix.c has the same. Signals that arrive while one is pending are merged, and the handler
-- is not entered again before it has returned; one step is one call of `waitpid`, or the return.
use linux_riscv.Prelude.{
  ℕ, zero, suc, ◌+◌, ◌≡◌, ◌⊎◌, refl, inl, inr, Bool, true, false, ap, ◌∙◌, sym,
}

-- Where `main` stands: in its loop, or interrupted by `reap`, which calls `waitpid`, or is about to
-- return after a call that found no child that has ended.
pub data Handler : Type 0 where
  outside waiting returning : Handler

-- The children that run and those that have ended, and whether SIGCHLD is pending.
pub record Children : Type 0 where
  pub running : ℕ
  pub zombies : ℕ
  pub pending : Bool
  pub handler : Handler

unfoldable pub no_children : Children
no_children = record { running = 0; zombies = 0; pending = false; handler = outside }

pub data Step (s : Children) : Children → Type 0 where
  fork : s.handler ≡ outside → Step s (record s { running = s.running + 1 })
  exit :
      (n : ℕ)
      → s.running ≡ suc n
      → Step s (record s { running = n; zombies = s.zombies + 1; pending = true })
  deliver :
      s.pending ≡ true
      → s.handler ≡ outside
      → Step s (record s { pending = false; handler = waiting })
  collect : (n : ℕ) → s.handler ≡ waiting → s.zombies ≡ suc n → Step s (record s { zombies = n })
  none_ended : s.handler ≡ waiting → s.zombies ≡ 0 → Step s (record s { handler = returning })
  leave : s.handler ≡ returning → Step s (record s { handler = outside })

pub data Reach : Children → Type 0 where
  here : Reach no_children
  next : {s t : Children} → Reach s → Step s t → Reach t

-- A step of the signals and of `reap`, neither a new child nor the end of one.
abbrev pub is_reaping : {s t : Children} → Step s t → Bool
is_reaping (fork e) = false
is_reaping (exit n e) = false
is_reaping (deliver e f) = true
is_reaping (collect n e z) = true
is_reaping (none_ended e z) = true
is_reaping (leave e) = true

-- The schedules of such steps only.
pub data Leads (s : Children) : Children → Type 0 where
  stop : Leads s s
  onward : {t u : Children} → Leads s t → (st : Step t u) → is_reaping st ≡ true → Leads s u

abbrev is_waiting : Handler → Bool
is_waiting waiting = true
is_waiting _ = false

-- A child that has ended is known to a signal that is pending or to the handler.
IsKnown : Children → Type 0
IsKnown s = (s.zombies ≡ 0) ⊎ (s.pending ≡ true) ⊎ (s.handler ≡ waiting)

Step-IsKnown : {s t : Children} → Step s t → IsKnown s → IsKnown t
unfolding IsKnown
Step-IsKnown (fork e) v = v
Step-IsKnown (exit n e) v = inr (inl refl)
Step-IsKnown (deliver e f) v = inr (inr refl)
Step-IsKnown (collect n e z) v = inr (inr e)
Step-IsKnown (none_ended e z) v = inl z
Step-IsKnown (leave e) (inl z) = inl z
Step-IsKnown (leave e) (inr (inl p)) = inr (inl p)
Step-IsKnown (leave e) (inr (inr w)) =
    let clash : false ≡ true = sym (ap is_waiting e) ∙ ap is_waiting w in cc

Reach-IsKnown : {s : Children} → Reach s → IsKnown s
unfolding IsKnown no_children
Reach-IsKnown here = inl refl
Reach-IsKnown (next p st) = Step-IsKnown st (Reach-IsKnown p)

Leads-trans : {s t u : Children} → Leads s t → Leads t u → Leads s u
Leads-trans p stop = p
Leads-trans p (onward q st w) = onward (Leads-trans p q) st w

-- All that have ended are collected, and as many run as before.
pub record IsCollected (s t : Children) : Type 0 where
  pub leads : Leads s t
  pub none_left : t.zombies ≡ 0
  pub main_goes_on : t.handler ≡ outside
  pub same : t.running ≡ s.running

-- A step of `reap` in front of the rest.
before :
    {s t u : Children}
    → (st : Step s t) → is_reaping st ≡ true
    → t.running ≡ s.running
    → IsCollected t u
    → IsCollected s u
before st w same c = record {
  leads = Leads-trans (onward stop st w) c.leads;
  none_left = c.none_left;
  main_goes_on = c.main_goes_on;
  same = c.same ∙ same;
}

-- From inside of the handler, however many signals were merged.
reap_lem :
    (n : ℕ) (s : Children) → s.zombies ≡ n → s.handler ≡ waiting → (t : Children) × IsCollected s t
reap_lem zero s z e = (
  record s { handler = outside },
  record {
    leads = onward (onward stop (none_ended e z) refl) (leave refl) refl;
    none_left = z;
    main_goes_on = refl;
    same = refl;
  },
)
reap_lem (suc n) s z e =
    let (t, c) = reap_lem n (record s { zombies = n }) refl e in
    (t, before (collect n e z) refl refl c)

-- From `main`.
from_outside : (s : Children) → s.handler ≡ outside → IsKnown s → (t : Children) × IsCollected s t
unfolding IsKnown
from_outside s e (inl z) =
    (s, record { leads = stop; none_left = z; main_goes_on = e; same = refl })
from_outside s e (inr (inl p)) =
    let (t, c) = reap_lem s.zombies (record s { pending = false; handler = waiting }) refl refl in
    (t, before (deliver p e) refl refl c)
from_outside s e (inr (inr w)) = reap_lem s.zombies s refl w

from_returning :
    (s : Children) → s.handler ≡ returning → IsKnown s → (t : Children) × IsCollected s t
from_returning s e v =
    let (t, c) = from_outside (record s { handler = outside }) refl (Step-IsKnown (leave e) v) in
    (t, before (leave e) refl refl c)

from_any :
    (s : Children) (h : Handler) → s.handler ≡ h → IsKnown s → (t : Children) × IsCollected s t
from_any s outside e v = from_outside s e v
from_any s waiting e v = reap_lem s.zombies s refl e
from_any s returning e v = from_returning s e v

-- After every history in which children of the forking server start and end and their signals are
-- merged, some schedule of only the delivery of SIGCHLD and the steps of reap leads to a state
-- where every child that has ended is collected, as many run as before, and main goes on.
pub Reach-IsCollected : {s : Children} → Reach s → (t : Children) × IsCollected s t
Reach-IsCollected {s} r = from_any s s.handler refl (Reach-IsKnown r)
