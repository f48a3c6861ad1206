-- ===== src/CommandLine.antt =====
-- The command lines of both programs: cmd/gpuserver/app/app.go and cmd/gpuserver-ds/app/app.go. cobra,
-- pflag, viper and klog are libraries: what they answer is an argument, and a set of flags is the
-- list of its flags.
pub mod Begin
use Prim.Native.String.{◌++◌ as concat}
use nvidia_gpu_scheduler.Prelude.{
  ℕ, Bool, true, false, not, List, [], ◌∷◌, ◌++◌, Option, none, some, String, str_eq, Map,
  if◌then◌else◌,
}
use nvidia_gpu_scheduler.Startup.{Outcome, check}
use nvidia_gpu_scheduler.NameFlag.{
  NameFlagSet, new_name_flag_set, add_flag_set, add_name_flag_set_to_cmd, Terminal, Winsize, width,
  no_size, set_usage_and_help_func,
}

-- The name of a flag, its shorthand, and its default as a text.
pub record Flag : Type 0 where
  pub name : String
  pub shorthand : String
  pub default : String

abbrev pub FlagSet : Type 0
FlagSet = List Flag

abbrev pub has_flag : String → FlagSet → Bool
has_flag name [] = false
has_flag name (f ∷ fs) = if str_eq f.name name then true else has_flag name fs

-- FlagSet.AddFlagSet of pflag: the flags whose name is not there yet.
unfoldable pub add_flags : FlagSet → FlagSet → FlagSet
add_flags [] to = to
add_flags (f ∷ fs) to = add_flags fs (if has_flag f.name to then to else to ++ f ∷ [])

-- A call of cobra.CheckErr ends the process with 1 where there is an error.
pub data Checked (A : Type 0) : Type 0 where
  passed : A → Checked A
  exit_one : String → Checked A

abbrev pub check_err : {A : Type 0} → Option String → A → Checked A
check_err none a = passed a
check_err (some e) a = exit_one e

abbrev pub and_checked : {A B : Type 0} → Checked A → (A → Checked B) → Checked B
and_checked (passed a) f = f a
and_checked (exit_one e) f = exit_one e

abbrev flag : String → String → String → Flag
flag name shorthand default = record { name = name; shorthand = shorthand; default = default }

abbrev pub server_flags : FlagSet
server_flags =
    flag "config" "c" ""
    ∷ flag "bind-address" "b" "0.0.0.0"
    ∷ flag "secure-port" "p" "8080"
    ∷ flag "tls-auto" "" "true"
    ∷ flag "write-config-to" "" ""
    ∷ flag "tls-config.tls-ca-file" "" ""
    ∷ flag "tls-config.tls-cert-file" "" ""
    ∷ flag "tls-config.tls-private-key-file" "" ""
    ∷ flag "enable-scheduler" "" "true"
    ∷ flag "scheduler.parallelism" "" "10"
    ∷ []

abbrev pub server_ds_flags : FlagSet
server_ds_flags =
    flag "config" "c" ""
    ∷ flag "write-config-to" "" ""
    ∷ flag "localPodResourcesEndpoint" "" "unix:///var/lib/kubelet/pod-resources/kubelet.sock"
    ∷ []

-- A program: the name of its set of flags, the set, and the name of its file of configuration.
pub record Program : Type 0 where
  pub use_line : String
  pub set_name : String
  pub flags : FlagSet
  pub config_name : String

abbrev pub gpuserver : Program
gpuserver = record {
  use_line = "gpuserver";
  set_name = "server";
  flags = server_flags;
  config_name = ".metrics-podresource";
}

abbrev pub gpuserver_ds : Program
gpuserver_ds = record {
  use_line = "gpuserver-ds";
  set_name = "server-ds";
  flags = server_ds_flags;
  config_name = ".metrics-podresource-ds";
}

abbrev FlagSets : Type 0
FlagSets = NameFlagSet FlagSet

abbrev checked_set : FlagSets × Option String → Checked FlagSets
checked_set (nfs, e) = check_err e nfs

unfoldable pub set_server_flags : Program → FlagSets → Checked FlagSets
unfolding add_flag_set
set_server_flags p nfs = checked_set (add_flag_set FlagSet p.set_name p.flags nfs)

unfoldable pub set_klog_flags : FlagSet → FlagSets → Checked FlagSets
unfolding add_flag_set
set_klog_flags klogflags nfs = checked_set (add_flag_set FlagSet "klog" klogflags nfs)

unfoldable pub usage_of : Winsize → FlagSets → Checked FlagSets
usage_of (width cols) nfs = passed nfs
usage_of (no_size e) nfs = exit_one e

-- init, with the flags of klog, the terminal, and the error of viper.BindPFlags: the command's flags.
unfoldable pub init_command : Program → FlagSet → Terminal → Option String → Checked FlagSet
unfolding set_server_flags set_klog_flags set_usage_and_help_func usage_of add_flags
    add_name_flag_set_to_cmd
init_command p klogflags t bind =
    and_checked (set_server_flags p (new_name_flag_set FlagSet)) (λ nfs.
      and_checked (set_klog_flags klogflags nfs) (λ nfs'.
        and_checked (usage_of (set_usage_and_help_func t) nfs')
          (λ nfs''. check_err bind (add_name_flag_set_to_cmd FlagSet add_flags nfs''.flagsets []))))

-- The error of Args, which tells the command's path and all its arguments.
pub record TakesNoArguments : Type 0 where
  pub command_path : String
  pub args : List String

no_arguments : TakesNoArguments → List String → Option TakesNoArguments
no_arguments e [] = none
no_arguments e (arg ∷ rest) =
    let later = no_arguments e rest in if str_eq arg "" then later else some e

-- Args
unfoldable pub check_args : Program → List String → Option TakesNoArguments
unfolding no_arguments
check_args p args = no_arguments (record { command_path = p.use_line; args = args }) args

-- Where viper looks for the configuration.
pub data ConfigSource : Type 0 where
  config_file : String → ConfigSource
  -- in the home directory, of type yaml, under the name
  config_in : String → String → ConfigSource

pub data Home : Type 0 where
  home : String → Home
  no_home : String → Home

home_source : Program → Home → Checked ConfigSource
home_source p (home dir) = passed (config_in dir p.config_name)
home_source p (no_home e) = exit_one e

-- initConfig, where a file that cannot be read is left out without an error.
unfoldable pub init_config : Program → String → Home → Checked ConfigSource
unfolding home_source
init_config p cfg_file h =
    if not (str_eq cfg_file "") then passed (config_file cfg_file) else home_source p h

-- RunE: viper.Unmarshal, and then runserver or runserverds.
abbrev pub run_e : {A : Type 0} → Option String → Outcome A → Outcome A
run_e unmarshal run = check unmarshal run

-- Execute, with what cobra's Execute returns.
abbrev pub execute : Option String → Checked Unit
execute e = check_err e tt

-- The same of gpuserver-ds.
unfoldable pub init_command_ds : FlagSet → Terminal → Option String → Checked FlagSet
unfolding init_command
init_command_ds klogflags t bind = init_command gpuserver_ds klogflags t bind

unfoldable pub check_args_ds : List String → Option TakesNoArguments
unfolding check_args
check_args_ds args = check_args gpuserver_ds args

unfoldable pub init_config_ds : String → Home → Checked ConfigSource
unfolding init_config
init_config_ds cfg_file h = init_config gpuserver_ds cfg_file h
