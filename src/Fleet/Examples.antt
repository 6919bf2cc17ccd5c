-- ===== src/Fleet/Examples.antt =====
-- A fleet with Linux, two pages of locations and two pages of instances, and a run over it in which
-- the script fails on the second instance.
use amazon_gamelift_toolkit.Base.{
  ◌≡◌, refl, sym, subst, inl, inr, true, false, List, [], ◌∷◌, Option, none, some, arith,
  if◌then◌else◌,
}
use amazon_gamelift_toolkit.Base.Int.{pos}
use amazon_gamelift_toolkit.Base.Eq.{bytes_beq}
use amazon_gamelift_toolkit.Base.Elem.{Elem}
use amazon_gamelift_toolkit.Base.Result.{Result, ok, err}
use amazon_gamelift_toolkit.Go.Text.{Bytes, codes, split}
use amazon_gamelift_toolkit.Fleet.{linux, ServiceError, FleetError, upload_failed}
use amazon_gamelift_toolkit.Fleet.Arguments.{
  CliArgs, Checks, validate, ParsedArgs, parsed_args, parse_args, split_instance_ids,
}
use amazon_gamelift_toolkit.Fleet.Client.{
  Page, LocationState, RemoteInstance, Instance, Service, get_fleet, open_port_for_fleet,
  get_instances, filter_instances,
}
use amazon_gamelift_toolkit.Fleet.Client.Ending.{Ends, get_instances_returns}
use amazon_gamelift_toolkit.Fleet.Client.Filter.{
  select_instances, filter_instances-select_instances,
}
use amazon_gamelift_toolkit.Fleet.Tools.Uploader.{System}
use amazon_gamelift_toolkit.Fleet.Instance.{
  enabling, copying, running, Remote, Steps, update, new_instance_progress_writer,
}
use amazon_gamelift_toolkit.Fleet.Instance.Progress.{IsReported, update-IsReported}
use amazon_gamelift_toolkit.Fleet.Runner.{
  Environment, Run, Event, opens_port, generates_script, takes_step, FleetUpdateResults, update_all,
  update_instances, ◌>>>◌,
}
use amazon_gamelift_toolkit.Fleet.Main.{main}
use amazon_gamelift_toolkit.Fleet.Main.Ended.{IsEnded, main-IsEnded}
use amazon_gamelift_toolkit.Fleet.Runner.Counts.{HasCounts, all_events, update_all-HasCounts}
use amazon_gamelift_toolkit.Fleet.Runner.Safety.{IsPrepared, update_instances-IsPrepared}
use amazon_gamelift_toolkit.Fleet.Runner.Allowed.{
  EndingService, client_of, update_instances_touches_allowed,
}

abbrev fleet_name : Bytes
fleet_name = codes "fleet-1"

abbrev remote_instance : Bytes → Bytes → RemoteInstance
remote_instance status id = record {
  instance_status = status;
  os_name = codes "AMAZON_LINUX_2";
  ip = some (codes "10.0.0.1");
  id = some id;
  region = some (codes "us-east-1");
}

abbrev location_pages : Option Bytes → Result ServiceError (Page (Option LocationState))
location_pages none = ok (record {
  items = some (record { status = codes "Active"; location = some (codes "us-east-1") }) ∷ [];
  next_token = some (codes "t");
})
location_pages (some token) = ok (record {
  items = some (record { status = codes "NEW"; location = none }) ∷ [];
  next_token = none;
})

abbrev first_page : List RemoteInstance
first_page =
    remote_instance (codes "ACTIVE") (codes "i-1")
    ∷ remote_instance (codes "TERMINATING") (codes "i-2")
    ∷ []

abbrev second_page : List RemoteInstance
second_page = remote_instance (codes "ACTIVE") (codes "i-3") ∷ []

abbrev instance_pages : Option Bytes → Result ServiceError (Page RemoteInstance)
instance_pages none = ok (record { items = first_page; next_token = some (codes "t") })
instance_pages (some token) = ok (record { items = second_page; next_token = none })

abbrev service : Service
service = record {
  describe_fleet_location_attributes = λ fleet. location_pages;
  describe_instances = λ fleet location. instance_pages;
  describe_fleet_attributes = λ fleet. ok (codes "AMAZON_LINUX_2" ∷ []);
  describe_runtime_configuration = λ fleet. ok (some (codes "/local/game/server") ∷ []);
  update_fleet_port_settings = λ fleet port range. ok tt;
}

location_pages_end : Ends location_pages 2 none
unfolding Ends
location_pages_end page next e q page' next' e' q' = absurd (ground arith)

instance_pages_end : Ends instance_pages 2 none
unfolding Ends
instance_pages_end page next e q page' next' e' q' = absurd (ground arith)

get_instances_returns_example :
    (r : Result FleetError (List Instance)) × (get_instances service 2 fleet_name [] ≡ some r)
get_instances_returns_example =
    get_instances_returns service 2 fleet_name [] location_pages_end
      (λ location. instance_pages_end)

abbrev instance_named : Bytes → Instance
instance_named id = record {
  ip_address = codes "10.0.0.1";
  instance_id = id;
  region = codes "us-east-1";
  fleet_id = fleet_name;
  operating_system = linux;
}

abbrev listed : List Instance
listed = instance_named (codes "i-1") ∷ instance_named (codes "i-3") ∷ []

instances_found : get_instances service 2 fleet_name [] ≡ some (ok listed)
unfolding get_instances
instances_found = refl

filter_instances-select_instances_example :
    filter_instances listed (codes "i-3" ∷ []) ≡ select_instances listed (codes "i-3" ∷ [])
filter_instances-select_instances_example =
    filter_instances-select_instances listed (codes "i-3" ∷ []) (λ h. ground arith, (λ h. h, tt))
      (λ h. h, tt)

abbrev args : CliArgs
args = record {
  fleet_id = fleet_name;
  ip_range = codes "10.0.0.0/8";
  build_zip_path = codes "build.zip";
  private_key_path = codes "key.pem";
  ssh_port = pos 0;
  instance_ids = codes "i-1" ∷ codes "i-3" ∷ [];
  restart = false;
  lock_name = codes "lock";
  verbose = false;
  instance_ids_raw = codes "i-1,i-3";
}

abbrev checks : Checks
checks = record { does_file_exist = λ path. true; is_valid_ip_range = λ range. true }

validate_passes : validate checks args ≡ []
unfolding validate
validate_passes = refl

abbrev system : System
system = record {
  create_temp = ok (codes "/tmp/known_hosts1");
  writes = true;
  removes = true;
  run = λ command. true;
}

abbrev remote : Instance → Remote Unit
remote target = record {
  enable_ssh = λ commands. ok tt;
  system = λ key. system;
  run_command = λ key command.
      if bytes_beq target.instance_id (codes "i-3") then err upload_failed else ok tt;
}

abbrev ending_service : EndingService
ending_service = record {
  service = service;
  fuel = 2;
  locations_end = λ fleet. location_pages_end;
  instances_end = λ fleet location. instance_pages_end;
}

abbrev env : Environment Unit Unit
env = record {
  client = client_of ending_service;
  archive = ok (codes "server" ∷ []);
  generate_script = λ os paths. ok (codes "/tmp/1update-instance.sh");
  load_key = ok tt;
  public_key = λ key. codes "ssh-ed25519 AAAA";
  programs = record {
    has_scp = true;
    has_terminal = true;
    has_progress_bar = true;
    install_script = [];
  };
  remote = λ key. remote;
}

abbrev trace : List Event
trace =
    opens_port (pos 22)
    ∷ generates_script
    ∷ takes_step (codes "i-1") enabling
    ∷ takes_step (codes "i-1") copying
    ∷ takes_step (codes "i-1") running
    ∷ takes_step (codes "i-3") enabling
    ∷ takes_step (codes "i-3") copying
    ∷ takes_step (codes "i-3") running
    ∷ []

trace_of_run : (update_instances env args).0 ≡ trace
unfolding update_instances ◌>>>◌ get_fleet get_instances open_port_for_fleet
trace_of_run = refl

first_step : Elem (takes_step (codes "i-1") enabling) (update_instances env args).0
first_step =
    subst (Elem (takes_step (codes "i-1") enabling)) (sym trace_of_run) (inr (inr (inl refl)))

update_instances-IsPrepared_example : IsPrepared env args (codes "i-1")
update_instances-IsPrepared_example =
    update_instances-IsPrepared env args (codes "i-1") enabling first_step

update_instances_touches_allowed_example : Elem (codes "i-1") (codes "i-1" ∷ codes "i-3" ∷ [])
update_instances_touches_allowed_example =
    update_instances_touches_allowed ending_service env args (codes "i-1") enabling refl
      (λ e. absurd (ground arith)) first_step

-- The second of two instances fails.
abbrev one : Instance → Run Unit
one target =
    let failed = bytes_beq target.instance_id (codes "i-3") in
    (takes_step target.instance_id enabling ∷ [], if failed then err upload_failed else ok tt)

update_all-HasCounts_example :
    (r : FleetUpdateResults) × (error : Option FleetError) × (update_all one listed
      ≡ (all_events one listed, ok (r, error)))
    × HasCounts one listed r error
update_all-HasCounts_example =
    update_all-HasCounts one listed (λ e. absurd (ground arith), (λ e. absurd (ground arith), tt))

-- A session in which the copy fails.
abbrev steps : Steps Unit
steps = record { enable = ok tt; copy = λ key. err upload_failed; run = λ key. ok tt }

update-IsReported_example : IsReported steps (update steps (new_instance_progress_writer false))
update-IsReported_example = update-IsReported steps

abbrev flags : List Bytes → ParsedArgs
flags values = parsed_args args

abbrev os_args : List Bytes
os_args = codes "fast-build-update-tool" ∷ codes "--fleet-id" ∷ fleet_name ∷ []

main-IsEnded_example : IsEnded flags checks env os_args (main flags checks env none none os_args)
main-IsEnded_example = main-IsEnded flags checks env os_args

-- The second instance fails, and the script stays behind.
main_skips_cleanup :
    let o = main flags checks env none none os_args in
    (o.exit_code ≡ 1) × (o.is_cleaned_up ≡ false) × (o.trace ≡ trace)
unfolding main update_instances ◌>>>◌ get_fleet get_instances open_port_for_fleet validate
    parse_args split_instance_ids split
main_skips_cleanup = (refl, refl, refl)

-- Without arguments, the usage is shown.
main_help : (main flags checks env none none (codes "fast-build-update-tool" ∷ [])).exit_code ≡ 0
unfolding main parse_args
main_help = refl
