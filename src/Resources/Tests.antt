-- ===== src/Resources/Tests.antt =====
-- A machine on which no call fails, and the theorems about the resources on it.
use osconfig.Base.{
  String, ◌<>◌, true, false, Option, none, some, [], ◌∷◌, ◌≡◌, ◌≢◌, refl, arith, ◌==◌,
  if◌then◌else◌, String-discrete,
}
use osconfig.Base.Int.{pos}
use osconfig.Base.Texts.{has_prefix}
use osconfig.Resources.{World, Stream, CommandEnd, exited, Env}
use osconfig.Resources.Atomic.{
  norm_path, atomic_write_file_stream, atomic_write, temp_file, write_stream,
}
use osconfig.Resources.Atomic.Safe.{
  Whole, Fetched, Holds, tmp_name, atomic_write_file_stream-Whole, atomic_write-Whole,
}
use osconfig.Base.Dict.{lookup, insert, delete}
use osconfig.Resources.Disk.{
  make_temp_dir, create, copy, rename, put_text, open_file, read, truncate,
}
use osconfig.Resources.Download.Stored.{Plain}
use osconfig.Resources.Execs.{script, shell, no_interpreter, ExecConfig, ExecResource, new_exec}
use osconfig.Resources.Execs.Runs.{
  run, command, conclude, verdict, exec_output, check_state, enforce_state,
}
use osconfig.Resources.Execs.Codes.{
  Concluded, check_state-Concluded, Succeeded, enforce_state-Succeeded,
}
use osconfig.Resources.Files
use osconfig.Resources.Files.{
  present, contents_match_state, content, FileConfig, ManagedFile, new_file,
}
use osconfig.Resources.Files.Desires.{Checked, check_state-Checked}
use osconfig.Resources.Files.Ready.{Named}
use osconfig.Resources.Files.Promise.{Promise, enforce_state-Promise}

abbrev command_end : String → CommandEnd
command_end name =
    if name == "/tmp/r/script"
    then exited (pos 100) "exit status 100"
    else exited (pos 101) "exit status 101"

abbrev pub machine : Env
machine = record {
  is_windows = false;
  fault = λ n. none;
  torn = λ n. "";
  random = λ n. "7";
  temp_dir = λ n. "/tmp/r";
  is_under = λ dir path. has_prefix path dir;
  abs = λ path. (path, none);
  join = λ dir name. dir <> ("/" <> name);
  dir = λ path. "/tmp/r";
  base = λ path. "motd";
  url_base = λ path. "motd";
  equal_fold = λ s t. s == t;
  sha256 = λ text. "0123456789-" <> text;
  run = λ n name args. command_end name;
  new_client = λ n. none;
  fetch_gcs_object = λ n bucket object generation. (record { text = ""; broken = none }, none);
  fetch_remote_object = λ n uri. (record { text = "hello"; broken = none }, none);
}

abbrev empty : World
empty = record { disk = []; tick = 0 }

abbrev pub source_file : String
source_file = "/tmp/r/motd"

unchanged : norm_path machine source_file ≡ (source_file, none)
unfolding norm_path String-discrete
unchanged = refl

pub apart_from : (s t : String) → (s == t) ≡ false → s ≢ t
apart_from s t e same = ground arith

pub plain : Plain machine source_file
unfolding String-discrete
plain = record { normal = unchanged; apart = λ w. apart_from source_file "/tmp/r/motd7.tmp" refl }

abbrev hello : Stream
hello = record { text = "hello"; broken = none }

apart_example : (norm_path machine source_file).0 ≢ tmp_name machine source_file empty
unfolding norm_path String-discrete
apart_example = apart_from source_file "/tmp/r/motd7.tmp" refl

atomic_write_file_stream-Whole_example :
    let end = atomic_write_file_stream machine hello "" source_file 420 empty in
    Whole
      (Fetched machine hello "" end.0.0)
      (norm_path machine source_file).0
      (tmp_name machine source_file empty)
      empty
      end.1
      end.0.1
atomic_write_file_stream-Whole_example =
    atomic_write_file_stream-Whole machine source_file 420 empty apart_example hello ""

atomic_write-Whole_example :
    Whole
      (Holds "hello")
      (norm_path machine source_file).0
      (tmp_name machine source_file empty)
      empty
      (atomic_write machine source_file "hello" 420 empty).1
      (atomic_write machine source_file "hello" 420 empty).0
atomic_write-Whole_example = atomic_write-Whole machine source_file 420 empty apart_example "hello"

-- The message of the day is to be the content of the policy.
abbrev motd : FileConfig
motd = record {
  path = "/etc/motd";
  state = contents_match_state;
  permissions = [];
  source = content "welcome";
}

abbrev pub old : World
old = record { disk = ("/etc/motd", record { content = "old"; perms = 420 }) ∷ []; tick = 0 }

abbrev validated : (Option String × ManagedFile) × World
validated = Files.validate machine motd new_file old

names : Named machine "/etc/motd"
unfolding String-discrete
names = record {
  plain = λ n. plain;
  unmanaged = λ n. apart_from source_file "/etc/motd" refl;
  named = λ n. apart_from source_file "" refl;
}

valid_example : validated.0.0 ≡ none
unfolding Files.validate Files.validate_present Files.acquire Files.download Files.fetch
    Files.fetched Files.parse_permissions atomic_write_file_stream norm_path temp_file write_stream
    make_temp_dir create copy rename put_text lookup insert delete String-discrete
valid_example = refl

enforced_example : (Files.enforce_state machine motd validated.0.1 validated.1).0.0.0 ≡ true
unfolding Files.validate Files.validate_present Files.acquire Files.download Files.fetch
    Files.fetched Files.parse_permissions atomic_write_file_stream norm_path temp_file write_stream
    make_temp_dir create copy rename put_text lookup insert delete String-discrete
    Files.enforce_state Files.install_present Files.install Files.copy_file Files.fill open_file
    read truncate
enforced_example = refl

enforce_state-Promise_example :
    Promise machine motd old (Files.enforce_state machine motd validated.0.1 validated.1)
unfolding String-discrete
enforce_state-Promise_example =
    enforce_state-Promise machine motd old validated.1 names (apart_from "" "/etc/motd" refl) refl
      valid_example refl enforced_example

abbrev here : ManagedFile
here = record new_file { path = "/etc/motd"; state = present }

check_state-Checked_example : Checked machine here old (Files.check_state machine here old)
check_state-Checked_example = check_state-Checked machine here old (λ e. cc) refl refl refl

-- The check exits with the code 101, and the enforcement with 100.
abbrev runs : ExecConfig
runs = record {
  validate_exec = some (record {
    source = script "exit 101";
    interpreter = shell;
    args = [];
    output_file_path = "";
  });
  enforce_exec = some (record {
    source = script "exit 100";
    interpreter = no_interpreter;
    args = [];
    output_file_path = "/etc/motd";
  });
}

abbrev exec : ExecResource
exec = record new_exec { validate_path = "/tmp/r/script.sh"; enforce_path = "/tmp/r/script" }

check_state-Concluded_example :
    Concluded machine runs exec old (check_state machine runs exec old).0
check_state-Concluded_example = check_state-Concluded machine runs exec old

ran_example : (enforce_state machine runs exec old).0.0.0 ≡ true
unfolding enforce_state run command conclude verdict exec_output open_file read lookup
    String-discrete
ran_example = refl

enforce_state-Succeeded_example :
    Succeeded machine runs exec old (enforce_state machine runs exec old)
enforce_state-Succeeded_example = enforce_state-Succeeded machine runs exec old ran_example
