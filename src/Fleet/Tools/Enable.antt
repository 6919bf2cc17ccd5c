-- ===== src/Fleet/Tools/Enable.antt =====
-- fast-build-update-tool/internal/tools/ssh_enabler.go and internal/gamelift/get_instance_access.go:
-- how SSH is enabled on an instance. The session is an external program: its start is a parameter,
-- and so is the parser of keys; its outputs and its end are turns.
use amazon_gamelift_toolkit.Base.{
  ◌≡◌, refl, sym, subst, ◌⊎◌, inl, inr, Bool, List, [], ◌∷◌, ◌++◌, Option, none, some,
}
use amazon_gamelift_toolkit.Base.Result.{Result, ok, err, panic, ◌>>=◌}
use amazon_gamelift_toolkit.Go.Text.{Bytes, codes}
use amazon_gamelift_toolkit.Fleet.{ServiceError, FleetError, service_error}
use amazon_gamelift_toolkit.Fleet.Client.{Instance, deref, wrapped}
use amazon_gamelift_toolkit.Base.Elem.{Elem}
use amazon_gamelift_toolkit.Fleet.Tools.Session.{
  EnableAt, waiting, receiving, failed, received, Session, new_session, new_pty_writer, Turn, ends,
  run_session,
}
use amazon_gamelift_toolkit.Fleet.Tools.Order.{Shows, EndsBy, HasRun}
use amazon_gamelift_toolkit.Fleet.Tools.Order.Turns.{run_session-HasRun}

pub record RemoteCredentials : Type 0 where
  pub remote_access_key_id : Option Bytes
  pub remote_secret_access_key : Option Bytes
  pub remote_session_token : Option Bytes

pub record InstanceAccessCredentials : Type 0 where
  pub access_key_id : Bytes
  pub secret_access_key : Bytes
  pub session_token : Bytes

abbrev read_credentials : Option RemoteCredentials → Result FleetError InstanceAccessCredentials
read_credentials none = panic
read_credentials (some c) = deref c.remote_access_key_id >>= (λ key.
    deref c.remote_secret_access_key >>= (λ secret. deref c.remote_session_token >>= (λ token.
      ok (record { access_key_id = key; secret_access_key = secret; session_token = token }))))

unfoldable pub get_instance_access :
    (Bytes → Bytes → Result ServiceError (Option RemoteCredentials))
    → Bytes
    → Bytes
    → Result FleetError InstanceAccessCredentials
get_instance_access get_compute_access fleet id =
    wrapped (get_compute_access fleet id) >>= read_credentials

unfoldable pub env_var : Bytes → Bytes → Bytes
env_var key value = key ++ codes "=" ++ value

unfoldable pub session_environment : List Bytes → Instance → InstanceAccessCredentials → List Bytes
unfolding env_var
session_environment environ target c =
    environ
    ++ env_var (codes "AWS_REGION") target.region
      ∷ env_var (codes "AWS_ACCESS_KEY_ID") c.access_key_id
      ∷ env_var (codes "AWS_SECRET_ACCESS_KEY") c.secret_access_key
      ∷ env_var (codes "AWS_SESSION_TOKEN") c.session_token
      ∷ []

abbrev pub session_command : Instance → List Bytes
session_command target =
    codes "aws" ∷ codes "ssm" ∷ codes "start-session" ∷ codes "--target" ∷ target.instance_id ∷ []

-- The terminal: how the start of a session goes; and the parser of keys.
pub record Terminal (Key : Type 0) : Type 0 where
  pub start : List Bytes → List Bytes → Option ServiceError
  pub parse_authorized_key : Bytes → Result ServiceError Key

-- What Enable has returned, if it has.
pub data Enabled (Key : Type 0) : Type 0 where
  has_key : Key → Enabled Key
  fails : FleetError → Enabled Key
  still_runs : Enabled Key
  crashes : Enabled Key

module _ {Key : Type 0} (t : Terminal Key) where
  abbrev pub parsed : Result ServiceError Key → Enabled Key
  parsed (ok key) = has_key key
  parsed (err e) = fails (service_error e)
  parsed panic = crashes

  abbrev returned : EnableAt → Enabled Key
  returned waiting = still_runs
  returned receiving = still_runs
  returned (failed e) = fails (service_error e)
  returned (received key) = parsed (t.parse_authorized_key key)

  abbrev returned_of : Result {0, 0} Unit Session → Enabled Key
  returned_of (ok s) = returned s.enable_at
  returned_of (err _) = crashes
  returned_of panic = crashes

  abbrev started : Option ServiceError → Result {0, 0} Unit Session → Enabled Key
  started (some e) s = fails (service_error e)
  started none s = returned_of s

  -- Enable after the given turns of its goroutines.
  unfoldable pub enable :
      List Bytes
      → Instance
      → List Bytes
      → (Bytes → Bool)
      → Bytes
      → Result FleetError InstanceAccessCredentials
      → List Turn
      → Enabled Key
  unfolding session_environment run_session new_session new_pty_writer
  enable environ target commands is_prompt client (err e) turns = fails e
  enable environ target commands is_prompt client panic turns = crashes
  enable environ target commands is_prompt client (ok c) turns =
      started (t.start (session_command target) (session_environment environ target c))
        (run_session (new_pty_writer commands is_prompt client) (new_session commands) turns)

  -- A key that is shown and parsed.
  pub ParsedFrom : Bytes → List Turn → Result ServiceError Key → Type 0
  ParsedFrom client turns r =
      (text : Bytes) × Shows client turns text × (t.parse_authorized_key text ≡ r)

  -- The session cannot be started.
  pub NotStarted :
      List Bytes → Instance → Result FleetError InstanceAccessCredentials → ServiceError → Type 0
  NotStarted environ target credentials e =
      (c : InstanceAccessCredentials) × (credentials ≡ ok c)
      × (t.start (session_command target) (session_environment environ target c) ≡ some e)

  -- Why Enable returns what it does.
  pub HasReason :
      List Bytes
      → Instance
      → Bytes
      → Result FleetError InstanceAccessCredentials
      → List Turn
      → Enabled Key
      → Type 0
  HasReason environ target client credentials turns (has_key key) = ParsedFrom client turns (ok key)
  HasReason environ target client credentials turns (fails e) =
      (credentials ≡ err e)
      ⊎ ((x : ServiceError) × (e ≡ service_error x)
          × (NotStarted environ target credentials x
              ⊎ (Elem (ends (some x)) turns ⊎ ParsedFrom client turns (err x))))
  HasReason environ target client credentials turns still_runs =
      (c : InstanceAccessCredentials) × (credentials ≡ ok c)
      × (t.start (session_command target) (session_environment environ target c) ≡ none)
  HasReason environ target client credentials turns crashes =
      (credentials ≡ panic) ⊎ ParsedFrom client turns panic

  parsed-HasReason :
      (environ : List Bytes) (target : Instance) (client text : Bytes)
      (credentials : Result FleetError InstanceAccessCredentials) (turns : List Turn)
      (r : Result ServiceError Key)
      → Shows client turns text
      → t.parse_authorized_key text ≡ r
      → HasReason environ target client credentials turns (parsed r)
  unfolding HasReason ParsedFrom
  parsed-HasReason environ target client text credentials turns (ok key) shown e = (text, shown, e)
  parsed-HasReason environ target client text credentials turns (err x) shown e =
      inr (x, refl, inr (inr (text, shown, e)))
  parsed-HasReason environ target client text credentials turns panic shown e = inr (text, shown, e)

  returned-HasReason :
      (environ : List Bytes) (target : Instance) (client : Bytes) (c : InstanceAccessCredentials)
      (turns : List Turn) (at : EnableAt)
      → t.start (session_command target) (session_environment environ target c) ≡ none
      → EndsBy client turns at
      → HasReason environ target client (ok c) turns (returned at)
  unfolding HasReason EndsBy
  returned-HasReason environ target client c turns waiting start h = (c, refl, start)
  returned-HasReason environ target client c turns receiving start h = (c, refl, start)
  returned-HasReason environ target client c turns (failed e) start h = inr (e, refl, inr (inl h))
  returned-HasReason environ target client c turns (received key) start h =
      parsed-HasReason environ target client key (ok c) turns (t.parse_authorized_key key) h refl

  enabled-HasReason :
      (environ : List Bytes) (target : Instance) (commands : List Bytes) (is_prompt : Bytes → Bool)
      (client : Bytes) (credentials : Result FleetError InstanceAccessCredentials)
      (turns : List Turn)
      → HasReason environ target client credentials turns
          (enable environ target commands is_prompt client credentials turns)
  unfolding enable HasReason NotStarted
  enabled-HasReason environ target commands is_prompt client (err e) turns = inl refl
  enabled-HasReason environ target commands is_prompt client panic turns = inl refl
  enabled-HasReason environ target commands is_prompt client (ok c) turns =
      of (t.start (session_command target) (session_environment environ target c)) refl
    where
      of :
          (start : Option ServiceError)
          → t.start (session_command target) (session_environment environ target c) ≡ start
          → HasReason environ target client (ok c) turns (
              started start (
                run_session
                  (new_pty_writer commands is_prompt client)
                  (new_session commands)
                  turns))
      of (some e) at = inr (e, refl, inl (c, refl, at))
      of none at =
          let (s, run, left) = run_session-HasRun commands is_prompt client turns in
          subst (λ r. HasReason environ target client (ok c) turns (returned_of r)) (sym run)
            (returned-HasReason environ target client c turns s.enable_at at left.ends_by)

  -- Whatever turns the goroutines have taken, and whatever the session prints, the writer has not sent
  -- on the closed channel. The commands that have been run are the first ones, in their order and each
  -- once, and no more of them than prompts have been printed. If Enable has returned a key, an output has
  -- shown its text, which is no part of the client's own key; if an error, it is that of the access, of
  -- the start or of the end of the session, or of the parser at such a text; and it crashes only in the
  -- reading of the access or in the parser. Else it still runs, with a session that was started.
  pub enable-HasReason :
      (environ : List Bytes) (target : Instance) (commands : List Bytes) (is_prompt : Bytes → Bool)
      (client : Bytes) (credentials : Result FleetError InstanceAccessCredentials)
      (turns : List Turn)
      → ((s : Session) × (run_session
              (new_pty_writer commands is_prompt client)
              (new_session commands)
              turns
            ≡ ok s)
          × HasRun commands is_prompt client turns s)
        × HasReason environ target client credentials turns
            (enable environ target commands is_prompt client credentials turns)
  enable-HasReason environ target commands is_prompt client credentials turns = (
    run_session-HasRun commands is_prompt client turns,
    enabled-HasReason environ target commands is_prompt client credentials turns,
  )
