-- ===== src/Fleet/Tools/Order/Turns.antt =====
-- What the goroutines of Enable in ssh_enabler.go keep in order, turn by turn.
use amazon_gamelift_toolkit.Base.{
  ℕ, suc, ◌+◌, ◌≡◌, refl, sym, ap, ◌∙◌, inl, inr, Bool, false, List, [], ◌∷◌, ◌++◌, Option, none,
  some, append_assoc, length, length-append, arith, Bool-cases, subst,
}
use amazon_gamelift_toolkit.Base.Elem.{Elem}
use amazon_gamelift_toolkit.Base.Result.{ok}
use amazon_gamelift_toolkit.Go.Text.{Bytes}
use amazon_gamelift_toolkit.Fleet.{ServiceError}
use amazon_gamelift_toolkit.Fleet.Tools.Session.{
  PtyWriter, new_pty_writer, WriterAt, at_rest, sending_command, sending_key, EnableAt, waiting,
  receiving, failed, received, Session, new_session, Turn, prints, sends, runs, ends, receives,
  print, send_command, send_key, send, after_command, run_next, run_commands, end_session, receive,
  turn, run_session,
}
use amazon_gamelift_toolkit.Fleet.Tools.Order.{
  prompts, Shows, pending, sending, OptionIn, EnableIn, IsInOrder, print-IsInOrder,
  send_command-IsInOrder, send_key-IsInOrder, more_prompts, EndsBy, HasRun,
}

module _ (w : PtyWriter) (commands : List Bytes) (K : Bytes → Type 0)
    (F : ServiceError → Type 0) where
  -- The next command is let through: the channel had one, or it is closed and none is left.
  after_command-IsInOrder :
      (m : ℕ) (s : Session) (command : Bytes) (left : List Bytes) (succeeds : Bool)
      → s.to_run ≡ command ∷ left
      → pending s.command_ready ≡ 1
      → IsInOrder w commands K F m s
      → IsInOrder w commands K F m (after_command s command left succeeds)
  after_command-IsInOrder m s command left succeeds e one i =
      let count = i.count in
      let longer = length-append s.has_run (command ∷ []) in
      record {
        run = append_assoc s.has_run (command ∷ []) left ∙ ap (◌++◌ s.has_run) (sym e) ∙ i.run;
        limit = i.limit;
        count = omega arith;
        bounded = i.bounded;
        closed = i.closed;
        prompted = i.prompted;
        ready_in = i.ready_in;
        writer_in = i.writer_in;
        enable_in = i.enable_in;
      }

  -- No command is left once the channel is closed and empty.
  closed_is_done :
      (m : ℕ) (s : Session) (command : Bytes) (left : List Bytes)
      → s.to_run ≡ command ∷ left
      → s.command_ready ≡ none
      → IsInOrder w commands K F m s
      → s.is_closed ≡ false
  closed_is_done m s command left e empty i = elim i.closed [
    | inl opened ↦ opened
    | inr (full, idle) ↦
        let count = i.count in
        let limit = i.limit in
        let none_ready : pending s.command_ready ≡ 0 = ap pending empty in
        let all : length s.has_run + length s.to_run ≡ length commands =
          sym (length-append s.has_run s.to_run) ∙ ap length i.run in
        let some_left : length s.to_run ≡ suc (length left) = ap length e in absurd (omega arith)
  ]

  run_next-IsInOrder :
      (to_run : List Bytes) (ready : Option ℕ) (m : ℕ) (s : Session) (succeeds : Bool)
      → s.to_run ≡ to_run
      → s.command_ready ≡ ready
      → IsInOrder w commands K F m s
      → IsInOrder w commands K F m (run_next to_run ready s succeeds)
  unfolding run_next
  run_next-IsInOrder [] ready m s succeeds e r i = i
  run_next-IsInOrder (command ∷ left) (some n) m s succeeds e r i =
      after_command-IsInOrder m s command left succeeds e (ap pending r) i
  run_next-IsInOrder (command ∷ left) none m s succeeds e r i =
      simp (closed_is_done m s command left e r i) i

  at_enable :
      (m : ℕ) (s : Session) (at : EnableAt)
      → EnableIn K F at
      → IsInOrder w commands K F m s
      → IsInOrder w commands K F m (record s { enable_at = at })
  at_enable m s at holds i = record {
    run = i.run;
    limit = i.limit;
    count = i.count;
    bounded = i.bounded;
    closed = i.closed;
    prompted = i.prompted;
    ready_in = i.ready_in;
    writer_in = i.writer_in;
    enable_in = holds;
  }

  end_session-IsInOrder :
      (at : EnableAt) (m : ℕ) (s : Session) (error : Option ServiceError)
      → ((e : ServiceError) → error ≡ some e → F e)
      → IsInOrder w commands K F m s
      → IsInOrder w commands K F m (end_session at s error)
  unfolding end_session
  end_session-IsInOrder waiting m s none may i = at_enable m s receiving tt i
  end_session-IsInOrder waiting m s (some e) may i = at_enable m s (failed e) (may e refl) i
  end_session-IsInOrder receiving m s error may i = i
  end_session-IsInOrder (failed e) m s error may i = i
  end_session-IsInOrder (received key) m s error may i = i

  receive-IsInOrder :
      (at : EnableAt) (ready : Option Bytes) (m : ℕ) (s : Session)
      → s.ssh_key_ready ≡ ready
      → IsInOrder w commands K F m s
      → IsInOrder w commands K F m (receive at ready s)
  unfolding receive
  receive-IsInOrder waiting ready m s e i = i
  receive-IsInOrder receiving none m s e i = i
  receive-IsInOrder receiving (some key) m s e i = record {
    run = i.run;
    limit = i.limit;
    count = i.count;
    bounded = i.bounded;
    closed = i.closed;
    prompted = i.prompted;
    ready_in = tt;
    writer_in = i.writer_in;
    enable_in = subst (OptionIn K) e i.ready_in;
  }
  receive-IsInOrder (failed x) ready m s e i = i
  receive-IsInOrder (received key) ready m s e i = i

  -- A send on the closed channel does not come about.
  send-IsInOrder :
      (at : WriterAt) (m : ℕ) (s : Session)
      → s.writer_at ≡ at
      → IsInOrder w commands K F m s
      → (s' : Session) × (send at w s ≡ ok s') × IsInOrder w commands K F m s'
  unfolding send
  send-IsInOrder at_rest m s e i = (s, refl, i)
  send-IsInOrder (sending_key key) m s e i = (
    send_key s.ssh_key_ready s key,
    refl,
    send_key-IsInOrder w commands K F s.ssh_key_ready m s key e i,
  )
  send-IsInOrder (sending_command output) m s e i = elim i.closed [
    | inl opened ↦ (
      send_command s.command_ready w s output,
      simp opened refl,
      send_command-IsInOrder w commands K F s.command_ready m s output refl e i,
    )
    | inr full ↦
        absurd
          (let one : sending s.writer_at ≡ 1 = ap sending e in let idle = full.1 in omega arith)
  ]

  run_commands-IsInOrder :
      (m : ℕ) (s : Session) (succeeds : Bool)
      → IsInOrder w commands K F m s
      → IsInOrder w commands K F m (run_commands s succeeds)
  unfolding run_commands
  run_commands-IsInOrder m s succeeds i = elim (Bool-cases s.is_alive) [
    | inl e ↦ simp e (run_next-IsInOrder s.to_run s.command_ready m s succeeds refl refl i)
    | inr e ↦ simp e i
  ]

  turn-IsInOrder :
      (m : ℕ) (s : Session) (t : Turn)
      → ((key : Bytes) → Shows w.client_public_key (t ∷ []) key → K key)
      → ((e : ServiceError) → t ≡ ends (some e) → F e)
      → IsInOrder w commands K F m s
      → (s' : Session) × (turn w s t ≡ ok s')
        × IsInOrder w commands K F (m + prompts w.is_new_command_output (t ∷ [])) s'
  unfolding turn prompts Shows
  turn-IsInOrder m s (prints output) shown may i = (
    print s.writer_at w s output,
    refl,
    more_prompts w commands K F _ _ (print s.writer_at w s output) (omega arith) (
        print-IsInOrder w commands K F s.writer_at m s output refl
          (λ key e. shown key (output, inl refl, e)) i),
  )
  turn-IsInOrder m s sends shown may i =
      let (s', e, i') = send-IsInOrder s.writer_at m s refl i in
      (s', e, more_prompts w commands K F m _ s' (omega arith) i')
  turn-IsInOrder m s (runs succeeds) shown may i = (
    run_commands s succeeds,
    refl,
    more_prompts w commands K F m _ (run_commands s succeeds) (omega arith)
        (run_commands-IsInOrder m s succeeds i),
  )
  turn-IsInOrder m s (ends error) shown may i = (
    end_session s.enable_at s error,
    refl,
    more_prompts w commands K F m _ (end_session s.enable_at s error) (omega arith)
        (end_session-IsInOrder s.enable_at m s error (λ e same. may e (ap ends same)) i),
  )
  turn-IsInOrder m s receives shown may i = (
    receive s.enable_at s.ssh_key_ready s,
    refl,
    more_prompts w commands K F m _ (receive s.enable_at s.ssh_key_ready s) (omega arith)
        (receive-IsInOrder s.enable_at s.ssh_key_ready m s refl i),
  )

  prompts_cons :
      (t : Turn) (turns : List Turn)
      → prompts w.is_new_command_output (t ∷ []) + prompts w.is_new_command_output turns
        ≡ prompts w.is_new_command_output (t ∷ turns)
  unfolding prompts
  prompts_cons (prints output) turns = omega arith
  prompts_cons sends turns = omega arith
  prompts_cons (runs succeeds) turns = omega arith
  prompts_cons (ends error) turns = omega arith
  prompts_cons receives turns = omega arith

  run_session-IsInOrder :
      (m : ℕ) (s : Session) (turns : List Turn)
      → ((key : Bytes) → Shows w.client_public_key turns key → K key)
      → ((e : ServiceError) → Elem (ends (some e)) turns → F e)
      → IsInOrder w commands K F m s
      → (s' : Session) × (run_session w s turns ≡ ok s')
        × IsInOrder w commands K F (m + prompts w.is_new_command_output turns) s'
  unfolding run_session Shows
  run_session-IsInOrder m s [] shown may i =
      (s, refl, more_prompts w commands K F m _ s (omega arith) i)
  run_session-IsInOrder m s (t ∷ turns) shown may i =
      let (s', e, i') =
        turn-IsInOrder m s t
          (λ key (o, at, k). shown key (o, elim at [ inl q ↦ inl q | inr q ↦ absurd q ], k))
          (λ x q. may x (inl (sym q))) i in
      let (s'', e', i'') =
        run_session-IsInOrder (m + prompts w.is_new_command_output (t ∷ [])) s' turns
          (λ key (o, at, k). shown key (o, inr at, k)) (λ x q. may x (inr q)) i' in
      (
        s'',
        rw e e',
        more_prompts w commands K F _ _ s'' (let c = prompts_cons t turns in omega arith) i'',
      )

pub run_session-HasRun :
    (commands : List Bytes) (is_prompt : Bytes → Bool) (client : Bytes) (turns : List Turn)
    → (s : Session) × (run_session
          (new_pty_writer commands is_prompt client)
          (new_session commands)
          turns
        ≡ ok s)
      × HasRun commands is_prompt client turns s
unfolding new_pty_writer new_session EndsBy
run_session-HasRun commands is_prompt client turns =
    let w = new_pty_writer commands is_prompt client in
    let K = Shows client turns in
    let F : ServiceError → Type 0 = λ e. Elem (ends (some e)) turns in
    let (s, e, i) =
      run_session-IsInOrder w commands K F 0 (new_session commands) turns (λ key k. k) (λ x q. q)
        (record {
          run = refl;
          limit = refl;
          count = refl;
          bounded = omega arith;
          closed = inl refl;
          prompted = omega arith;
          ready_in = tt;
          writer_in = tt;
          enable_in = tt;
        }) in
    let count = i.count in
    let prompted = i.prompted in
    (
      s,
      e,
      record {
        in_order = i.run;
        after_prompts = omega arith;
        ends_by = at s.enable_at i.enable_in;
      },
    )
  where
    at :
        (at : EnableAt)
        → EnableIn (Shows client turns) (λ e. Elem (ends (some e)) turns) at
        → EndsBy client turns at
    at waiting h = tt
    at receiving h = tt
    at (failed e) h = h
    at (received key) h = h
