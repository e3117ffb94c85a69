-- ===== src/Tests/Config.antt =====
-- The file of secrets, and the environment.
use smarthome_backend.Prelude.{String, ◌≡◌, refl, ◌==◌, string_Eq, true, false, some, if◌then◌else◌}
use smarthome_backend.Prelude.Dict.{lookup, insert}
use smarthome_backend.Automation.TimeExtractor.Scan.{is_blank}
use smarthome_backend.Config.{
  trim_space, trim_left, trim_right, read_vars, save_to_env_file, get_env_bool,
}
use smarthome_backend.Config.Lines.{has_newline}
use smarthome_backend.Config.Saved.{read_vars-save_to_env_file}

abbrev before : String
before = "# mine\n  DB_URL=postgres://db?a=b \n\nJWT_SECRET=old"

abbrev asked : String
asked = "DB_URL"

read_vars-save_to_env_file_example :
    lookup asked (read_vars (save_to_env_file before "s3cret=" "home")) ≡ (
      if "AGENT_ID" == asked
      then some "home"
      else if "JWT_SECRET" == asked
      then some "s3cret="
      else lookup asked (read_vars before))
unfolding trim_space has_newline trim_left trim_right is_blank
read_vars-save_to_env_file_example =
    read_vars-save_to_env_file before "s3cret=" "home" asked refl refl refl refl

-- A value in capitals.
yes_is_true : get_env_bool (λ key. "YES") "REMOTE_ACCESS_ENABLED" false ≡ true
unfolding get_env_bool
yes_is_true = refl

-- A value with a newline is not read back.
newline_is_lost :
    lookup "JWT_SECRET" (read_vars (save_to_env_file "" "two\nlines" "home")) ≡ some "two"
unfolding lookup insert read_vars save_to_env_file trim_space trim_left trim_right is_blank
newline_is_lost = refl
