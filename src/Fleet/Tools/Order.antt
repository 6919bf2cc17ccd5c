-- ===== src/Fleet/Tools/Order.antt =====
-- What holds of the goroutines of Enable in ssh_enabler.go in any order of their turns.
pub mod Turns
use amazon_gamelift_toolkit.Base.{
  ℕ, suc, ◌+◌, ◌≤◌, ◌≡◌, refl, sym, ap, ◌∙◌, ◌⊎◌, inl, inr, Bool, false, ◌&&◌, List, [], ◌∷◌, ◌++◌,
  Option, none, some, append_assoc, length, length-append, arith, ltb, leb, if◌then◌else◌,
  Bool-cases, subst,
}
use amazon_gamelift_toolkit.Base.Elem.{Elem}
use amazon_gamelift_toolkit.Base.Result.{ok}
use amazon_gamelift_toolkit.Go.Text.{Bytes}
use amazon_gamelift_toolkit.Fleet.{ServiceError}
use amazon_gamelift_toolkit.Fleet.Tools.Enabler.{key_of}
use amazon_gamelift_toolkit.Fleet.Tools.Session.{
  PtyWriter, new_pty_writer, WriterAt, at_rest, sending_command, sending_key, EnableAt, waiting,
  receiving, failed, received, Session, new_session, Turn, prints, sends, runs, ends, receives,
  send_or_rest, start_write, print, send_command, send_key, send, after_command, run_next,
  run_commands, end_session, receive, turn, run_session,
}

-- How many of the outputs are prompts.
pub prompts : (Bytes → Bool) → List Turn → ℕ
prompts is_prompt [] = 0
prompts is_prompt (prints output ∷ turns) =
    (if is_prompt output then 1 else 0) + prompts is_prompt turns
prompts is_prompt (_ ∷ turns) = prompts is_prompt turns

-- A key of the host that one of the outputs shows.
pub Shows : Bytes → List Turn → Bytes → Type 0
Shows client turns key =
    (output : Bytes) × Elem (prints output) turns × (key_of client output ≡ some key)

abbrev pub pending : Option ℕ → ℕ
pending none = 0
pending (some n) = 1

abbrev pub sending : WriterAt → ℕ
sending (sending_command output) = 1
sending _ = 0

abbrev pub OptionIn : (Bytes → Type 0) → Option Bytes → Type 0
OptionIn K none = Unit
OptionIn K (some key) = K key

-- The keys that a call of Write has still to send are in `K`.
abbrev pub WriterIn : Bytes → (Bytes → Type 0) → WriterAt → Type 0
WriterIn client K at_rest = Unit
WriterIn client K (sending_command output) = (key : Bytes) → key_of client output ≡ some key → K key
WriterIn client K (sending_key key) = K key

abbrev pub EnableIn : (Bytes → Type 0) → (ServiceError → Type 0) → EnableAt → Type 0
EnableIn K F (failed e) = F e
EnableIn K F (received key) = K key
EnableIn K F _ = Unit

-- Where Enable stands has its reason in the turns: the end of the session with an error, or a key
-- that was shown.
unfoldable pub EndsBy : Bytes → List Turn → EnableAt → Type 0
EndsBy client turns (failed e) = Elem (ends (some e)) turns
EndsBy client turns (received key) = Shows client turns key
EndsBy client turns _ = Unit

pub record HasRun (commands : List Bytes) (is_prompt : Bytes → Bool) (client : Bytes)
    (turns : List Turn) (s : Session) : Type 0 where
  pub in_order : s.has_run ++ s.to_run ≡ commands
  pub after_prompts : length s.has_run ≤ prompts is_prompt turns
  pub ends_by : EndsBy client turns s.enable_at

-- `K` are the keys that may be shown, `F` the errors with which the session may end.
module _ (w : PtyWriter) (commands : List Bytes) (K : Bytes → Type 0)
    (F : ServiceError → Type 0) where
  -- `m` prompts have been printed.
  pub record IsInOrder (m : ℕ) (s : Session) : Type 0 where
    pub run : s.has_run ++ s.to_run ≡ commands
    pub limit : w.commands_to_accept ≡ length commands
    pub count : length s.has_run + pending s.command_ready + sending s.writer_at ≡ s.commands_run
    pub bounded : s.commands_run ≤ w.commands_to_accept
    pub closed :
        (s.is_closed ≡ false)
        ⊎ ((s.commands_run ≡ w.commands_to_accept) × (sending s.writer_at ≡ 0))
    pub prompted : s.commands_run ≤ m
    pub ready_in : OptionIn K s.ssh_key_ready
    pub writer_in : WriterIn w.client_public_key K s.writer_at
    pub enable_in : EnableIn K F s.enable_at

  look_for_key-WriterIn :
      (output : Bytes)
      → ((key : Bytes) → key_of w.client_public_key output ≡ some key → K key)
      → WriterIn w.client_public_key K (send_or_rest (key_of w.client_public_key output))
        × (sending (send_or_rest (key_of w.client_public_key output)) ≡ 0)
  look_for_key-WriterIn output shown = of (key_of w.client_public_key output) shown
    where
      of :
          (found : Option Bytes)
          → ((key : Bytes) → found ≡ some key → K key)
          → WriterIn w.client_public_key K (send_or_rest found) × (sending (send_or_rest found) ≡ 0)
      of none shown = (tt, refl)
      of (some key) shown = (shown key refl, refl)

  start_write-IsInOrder :
      (m : ℕ) (s : Session) (output : Bytes)
      → ((key : Bytes) → key_of w.client_public_key output ≡ some key → K key)
      → sending s.writer_at ≡ 0
      → IsInOrder m s
      → IsInOrder (m + (if w.is_new_command_output output then 1 else 0)) (start_write w s output)
  unfolding start_write
  start_write-IsInOrder m s output shown idle i =
      let at = look_for_key-WriterIn output shown in
      let count = i.count in
      let bounded = i.bounded in
      let prompted = i.prompted in
      elim (Bool-cases
        (w.is_new_command_output output && ltb s.commands_run w.commands_to_accept)) [
          | inl e ↦ rw e (record {
            run = i.run;
            limit = i.limit;
            count = omega (arith, count, idle);
            bounded = ground arith;
            closed = elim i.closed [
              | inl opened ↦ inl opened
              | inr full ↦ absurd (let full' = full.0 in ground arith)
            ];
            prompted = ground arith;
            ready_in = i.ready_in;
            writer_in = shown;
            enable_in = i.enable_in;
          })
          | inr e ↦ rw e (record {
            run = i.run;
            limit = i.limit;
            count = rw at.1 (omega (arith, count, idle));
            bounded = i.bounded;
            closed = elim i.closed [ inl opened ↦ inl opened | inr full ↦ inr (full.0, at.1) ];
            prompted = omega (arith, prompted);
            ready_in = i.ready_in;
            writer_in = at.0;
            enable_in = i.enable_in;
          })
        ]

  pub more_prompts : (m n : ℕ) (s : Session) → m ≤ n → IsInOrder m s → IsInOrder n s
  more_prompts m n s le i =
      let prompted = i.prompted in
      record {
        run = i.run;
        limit = i.limit;
        count = i.count;
        bounded = i.bounded;
        closed = i.closed;
        prompted = omega arith;
        ready_in = i.ready_in;
        writer_in = i.writer_in;
        enable_in = i.enable_in;
      }

  pub print-IsInOrder :
      (at : WriterAt) (m : ℕ) (s : Session) (output : Bytes)
      → s.writer_at ≡ at
      → ((key : Bytes) → key_of w.client_public_key output ≡ some key → K key)
      → IsInOrder m s
      → IsInOrder (m + (if w.is_new_command_output output then 1 else 0)) (print at w s output)
  unfolding print
  print-IsInOrder at_rest m s output e shown i =
      start_write-IsInOrder m s output shown (ap sending e) i
  print-IsInOrder (sending_command o) m s output e shown i = more_prompts m _ s (omega arith) i
  print-IsInOrder (sending_key k) m s output e shown i = more_prompts m _ s (omega arith) i

  pub send_command-IsInOrder :
      (ready : Option ℕ) (m : ℕ) (s : Session) (output : Bytes)
      → s.command_ready ≡ ready
      → s.writer_at ≡ sending_command output
      → IsInOrder m s
      → IsInOrder m (send_command ready w s output)
  unfolding send_command
  send_command-IsInOrder (some n) m s output e at i = i
  send_command-IsInOrder none m s output e at i =
      let shown = subst (WriterIn w.client_public_key K) at i.writer_in in
      let next = look_for_key-WriterIn output shown in
      let count = i.count in
      let bounded = i.bounded in
      let empty : pending s.command_ready ≡ 0 = ap pending e in
      let one : sending s.writer_at ≡ 1 = ap sending at in
      record {
        run = i.run;
        limit = i.limit;
        count = rw next.1 (omega arith);
        bounded = i.bounded;
        closed = elim (Bool-cases (leb w.commands_to_accept s.commands_run)) [
          | inl full ↦ inr (ground arith, next.1)
          | inr more ↦ inl more
        ];
        prompted = i.prompted;
        ready_in = i.ready_in;
        writer_in = next.0;
        enable_in = i.enable_in;
      }

  pub send_key-IsInOrder :
      (ready : Option Bytes) (m : ℕ) (s : Session) (key : Bytes)
      → s.writer_at ≡ sending_key key
      → IsInOrder m s
      → IsInOrder m (send_key ready s key)
  unfolding send_key
  send_key-IsInOrder (some k) m s key at i = i
  send_key-IsInOrder none m s key at i =
      let zero_now : sending s.writer_at ≡ 0 = ap sending at in
      let count = i.count in
      record {
        run = i.run;
        limit = i.limit;
        count = omega arith;
        bounded = i.bounded;
        closed = elim i.closed [ inl opened ↦ inl opened | inr full ↦ inr (full.0, refl) ];
        prompted = i.prompted;
        ready_in = subst (WriterIn w.client_public_key K) at i.writer_in;
        writer_in = tt;
        enable_in = i.enable_in;
      }
