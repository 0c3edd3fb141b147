-- ===== src/Resources/Repositories/Contents.antt =====
-- The texts of repository files of config/repository_resource.go. The loops over lists are written with
-- the text so far.
use osconfig.Base.{String, ◌<>◌, List, [], ◌∷◌, ◌==◌, if◌then◌else◌}

pub data ArchiveType : Type 0 where
  archive_type_unspecified archive_deb archive_deb_src : ArchiveType

pub record AptRepository : Type 0 where
  pub archive_type : ArchiveType
  pub uri : String
  pub distribution : String
  pub components : List String

pub record GooRepository : Type 0 where
  pub name : String
  pub url : String

-- The repositories of yum and of zypper.
pub record YumRepository : Type 0 where
  pub id : String
  pub display_name : String
  pub base_url : String
  pub gpg_keys : List String

abbrev pub managed_line : String
managed_line = "# Repo file managed by Google OSConfig agent\n"

-- `debArchiveTypeMap`, where a type that it does not have is `deb`.
abbrev pub archive_name : ArchiveType → String
archive_name archive_type_unspecified = "deb"
archive_name archive_deb = "deb"
archive_name archive_deb_src = "deb-src"

-- The loop that adds the components to the line.
unfoldable pub with_components : String → List String → String
with_components line [] = line
with_components line (c ∷ cs) = with_components (line <> (" " <> c)) cs

unfoldable pub apt_repo_contents : AptRepository → String
unfolding with_components
apt_repo_contents repo =
    let line =
      archive_name repo.archive_type <> (" " <> (repo.uri <> (" " <> repo.distribution))) in
    managed_line <> (with_components line repo.components <> "\n")

unfoldable pub goo_get_repo_contents : GooRepository → String
goo_get_repo_contents repo =
    managed_line <> ("- name: " <> (repo.name <> ("\n" <> ("  url: " <> (repo.url <> "\n")))))

-- The loop over the keys behind the first.
unfoldable pub more_keys : List String → String
more_keys [] = ""
more_keys (k ∷ ks) = "       " <> (k <> ("\n" <> more_keys ks))

unfoldable pub key_lines : List String → String
unfolding more_keys
key_lines [] = ""
key_lines (k ∷ ks) = "gpgkey=" <> (k <> ("\n" <> more_keys ks))

-- The lines up to the address, which yum and zypper share.
abbrev pub head_lines : YumRepository → String
head_lines repo =
    managed_line
    <> ("["
        <> (repo.id
            <> ("]\n"
                <> ("name="
                    <> ((if repo.display_name == "" then repo.id else repo.display_name)
                        <> ("\nbaseurl=" <> (repo.base_url <> "\n")))))))

unfoldable pub yum_repo_contents : YumRepository → String
unfolding key_lines
yum_repo_contents repo = head_lines repo <> ("enabled=1\ngpgcheck=1\n" <> key_lines repo.gpg_keys)

unfoldable pub zypper_repo_contents : YumRepository → String
unfolding key_lines
zypper_repo_contents repo = head_lines repo <> ("enabled=1\n" <> key_lines repo.gpg_keys)
