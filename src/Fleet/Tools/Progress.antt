-- ===== src/Fleet/Tools/Progress.antt =====
-- The goroutines of Enable in ssh_enabler.go come to an end: a session that prompts for every command,
-- and then shows the key of the host.
use amazon_gamelift_toolkit.Base.{
  ℕ, suc, ◌+◌, ◌<◌, ◌≡◌, refl, sym, ap, ◌∙◌, ◌⊎◌, inl, inr, Bool, true, false, List, [], ◌∷◌, ◌++◌,
  none, some, append-nil, append_assoc, length, arith, leb, lt→ltb,
}
use amazon_gamelift_toolkit.Base.Result.{ok}
use amazon_gamelift_toolkit.Go.Text.{Bytes}
use amazon_gamelift_toolkit.Fleet.Tools.Enabler.{key_of}
use amazon_gamelift_toolkit.Fleet.Tools.Session.{
  PtyWriter, new_pty_writer, at_rest, waiting, received, Session, new_session, Turn, prints, sends,
  runs, ends, receives, start_write, print, send_command, send_key, send, run_next, run_commands,
  end_session, receive, turn, run_session,
}

-- A prompt, and then the next command, for each of the commands.
pub prompted : Bytes → List Bytes → List Turn → List Turn
prompted prompt [] turns = turns
prompted prompt (command ∷ commands) turns =
    prints prompt ∷ sends ∷ runs true ∷ prompted prompt commands turns

-- A session that prompts for all commands, shows the key of the host, and ends.
pub whole_session : Bytes → Bytes → List Bytes → List Turn
unfolding prompted
whole_session prompt output commands =
    prompted prompt commands (prints output ∷ sends ∷ ends none ∷ receives ∷ [])

-- Between two commands: `n` are run.
abbrev between : ℕ → List Bytes → List Bytes → Bool → Session
between n has_run to_run is_closed = record {
  commands_run = n;
  writer_at = at_rest;
  command_ready = none;
  is_closed = is_closed;
  ssh_key_ready = none;
  has_run = has_run;
  to_run = to_run;
  is_alive = true;
  enable_at = waiting;
}

module _ (w : PtyWriter) (prompt : Bytes) (is_prompt : w.is_new_command_output prompt ≡ true)
    (no_key : key_of w.client_public_key prompt ≡ none) where
  one_command :
      (n : ℕ) (has_run left : List Bytes) (command : Bytes) (turns : List Turn)
      → n < w.commands_to_accept
      → run_session w
          (between n has_run (command ∷ left) false)
          (prints prompt ∷ sends ∷ runs true ∷ turns)
        ≡ run_session w
            (between (n + 1) (has_run ++ command ∷ []) left (leb w.commands_to_accept (n + 1)))
            turns
  unfolding run_session turn print start_write send send_command run_commands run_next
  one_command n has_run left command turns more =
      simp (is_prompt, no_key, lt→ltb n w.commands_to_accept more) refl

  same_between :
      (n m : ℕ) (xs ys : List Bytes) (is_closed : Bool) (turns : List Turn)
      → n ≡ m
      → xs ≡ ys
      → run_session w (between n xs [] is_closed) turns
        ≡ run_session w (between m ys [] is_closed) turns
  same_between n m xs ys is_closed turns e f =
      ap (λ k. run_session w (between k xs [] is_closed) turns) e
      ∙ ap (λ zs. run_session w (between m zs [] is_closed) turns) f

  all_commands :
      (n : ℕ) (has_run left : List Bytes) (is_closed : Bool) (turns : List Turn)
      → n + length left ≡ w.commands_to_accept
      → (left ≡ []) ⊎ (is_closed ≡ false)
      → (b : Bool) × (run_session w (between n has_run left is_closed) (prompted prompt left turns)
          ≡ run_session w (between (n + length left) (has_run ++ left) [] b) turns)
  unfolding prompted
  all_commands n has_run [] is_closed turns limit opened = (
    is_closed,
    same_between n (n + 0) has_run (has_run ++ []) is_closed turns (omega arith)
        (sym (append-nil has_run)),
  )
  all_commands n has_run (command ∷ left) is_closed turns limit opened =
      let is_open : is_closed ≡ false = elim opened [ inl e ↦ absurd (ground arith) | inr e ↦ e ] in
      let (b, rest) =
        all_commands (n + 1) (has_run ++ command ∷ []) left (leb w.commands_to_accept (n + 1)) turns
          (omega arith) (closes left limit) in
      (
        b,
        ap
              (λ c.
                run_session w (between n has_run (command ∷ left) c)
                  (prints prompt ∷ sends ∷ runs true ∷ prompted prompt left turns))
              is_open
            ∙ one_command n has_run left command (prompted prompt left turns) (omega arith)
            ∙ rest
            ∙ same_between (n + 1 + length left) (n + suc (length left))
                ((has_run ++ command ∷ []) ++ left) (has_run ++ command ∷ left) b turns
                (omega arith) (append_assoc has_run (command ∷ []) left),
      )
    where
      closes :
          (left : List Bytes)
          → n + suc (length left) ≡ w.commands_to_accept
          → (left ≡ []) ⊎ (leb w.commands_to_accept (n + 1) ≡ false)
      closes [] e = inl refl
      closes (c ∷ left) e = inr (ground arith)

-- What a session leaves that has run all commands and given Enable the key.
pub record HasCompleted (commands : List Bytes) (key : Bytes) (s : Session) : Type 0 where
  pub all_run : s.has_run ≡ commands
  pub none_left : s.to_run ≡ []
  pub has_key : s.enable_at ≡ received key

pub whole_session-HasCompleted :
    (commands : List Bytes) (is_prompt : Bytes → Bool) (client prompt output key : Bytes)
    → is_prompt prompt ≡ true
    → key_of client prompt ≡ none
    → is_prompt output ≡ false
    → key_of client output ≡ some key
    → (s : Session) × (run_session
          (new_pty_writer commands is_prompt client)
          (new_session commands)
          (whole_session prompt output commands)
        ≡ ok s)
      × HasCompleted commands key s
unfolding new_pty_writer new_session whole_session run_session turn print start_write send send_key
    end_session receive
whole_session-HasCompleted commands is_prompt client prompt output key p no_key no_prompt shown =
    let w = new_pty_writer commands is_prompt client in
    let (b, all) =
      all_commands w prompt p no_key 0 [] commands false
        (prints output ∷ sends ∷ ends none ∷ receives ∷ []) (omega arith) (inr refl) in
    (
      record (between (0 + length commands) commands [] b) { enable_at = received key },
      all ∙ simp (no_prompt, shown) refl,
      record { all_run = refl; none_left = refl; has_key = refl },
    )
