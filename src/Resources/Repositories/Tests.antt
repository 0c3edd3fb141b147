-- ===== src/Resources/Repositories/Tests.antt =====
-- The file of an apt repository, and the theorem about it.
use osconfig.Base.{
  String, ◌<>◌, true, false, Option, none, [], ◌∷◌, ◌≡◌, refl, ◌∙◌, String-discrete,
}
use osconfig.Base.Int.{pos}
use osconfig.Base.Dict.{lookup, insert, delete}
use osconfig.Resources.{World}
use osconfig.Resources.Atomic.{norm_path, temp_file, atomic_write, write_content, put_content}
use osconfig.Resources.Disk.{create, copy, rename, put_text, truncate}
use osconfig.Resources.Tests.{machine, old, apart_from}
use osconfig.Resources.Repositories.Contents.{archive_deb, apt_repo_contents, with_components}
use osconfig.Resources.Repositories.{
  Repository, apt, Setup, ManagedRepository, new_repository, serialize_gpg_key_entity,
  fetch_gpg_key, seal, validate_apt, validate, write_file, enforce_repo, enforce_state,
}
use osconfig.Resources.Repositories.Matches.{Placed, Held, enforce_state-Held}

abbrev setup : Setup
setup = record {
  apt_exists = true;
  goo_get_exists = false;
  yum_exists = false;
  zypper_exists = false;
  apt_repo_format = λ sum. "/etc/apt/" <> (sum <> ".list");
  goo_get_repo_format = λ sum. sum;
  yum_repo_format = λ sum. sum;
  zypper_repo_format = λ sum. sum;
  http_get = λ n key. ((pos 3, record { text = "key"; broken = none }), none);
  is_armored = λ text. false;
  read_armored_key_ring = λ text. ([], none);
  read_key_ring = λ text. (text ∷ [], none);
  serialize = λ entity. (entity, none);
}

abbrev debian : Repository
debian =
    apt
      (record {
        archive_type = archive_deb;
        uri = "http://deb.example";
        distribution = "stable";
        components = "main" ∷ "contrib" ∷ [];
      })
      "http://key.example"

abbrev validated : (Option String × ManagedRepository) × World
validated = validate machine setup debian new_repository old

apt_line :
    validated.0.1.repo_file_contents
    ≡ "# Repo file managed by Google OSConfig agent\ndeb http://deb.example stable main contrib\n"
unfolding validate validate_apt serialize_gpg_key_entity fetch_gpg_key seal apt_repo_contents
    with_components String-discrete
apt_line = refl

valid_example : validated.0.0 ≡ none
unfolding validate validate_apt serialize_gpg_key_entity fetch_gpg_key seal apt_repo_contents
    with_components String-discrete
valid_example = refl

abbrev key_path : String
key_path = "/etc/apt/trusted.gpg.d/osconfig_added_0123456789-key.gpg"

placement : Placed machine validated.0.1
unfolding validate validate_apt serialize_gpg_key_entity fetch_gpg_key seal apt_repo_contents
    with_components String-discrete norm_path
placement = record {
  plain = record {
    normal = refl;
    apart = λ w. apart_from "/etc/apt/0123456789.list" "/tmp/r/motd7.tmp" refl;
  };
  apart = λ g c e.
      let same : key_path ≡ g.path = cc in
      (
        λ q. apart_from key_path "/etc/apt/0123456789.list" refl (same ∙ q),
        λ w q. apart_from key_path "/tmp/r/motd7.tmp" refl (same ∙ q),
      );
}

enforced_example : (enforce_state machine validated.0.1 validated.1).0.0 ≡ true
unfolding validate validate_apt serialize_gpg_key_entity fetch_gpg_key seal apt_repo_contents
    with_components String-discrete norm_path temp_file atomic_write write_content put_content
    create copy rename put_text truncate write_file enforce_repo enforce_state lookup insert delete
enforced_example = refl

enforce_state-Held_example :
    Held machine validated.0.1 (enforce_state machine validated.0.1 validated.1)
enforce_state-Held_example =
    enforce_state-Held machine setup debian old validated.1 valid_example placement enforced_example
