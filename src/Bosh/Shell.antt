-- ===== src/Bosh/Shell.antt =====
-- shell/bosh_envs.go: the script that lets a shell use the BOSH director.
use cfdev.Common.{String, ◌<>◌, Bool, List, [], ◌∷◌, if◌then◌else◌}
use cfdev.Common.Text.{codes, has_prefix, split}
use cfdev.Common.Text.Fields.{trimmed}
use cfdev.Bosh.{BoshConfig}

-- `order`, with the `values`.
exports : BoshConfig → List (String × String)
exports b =
    ("BOSH_ENVIRONMENT", b.director_address)
    ∷ ("BOSH_CLIENT", b.admin_username)
    ∷ ("BOSH_CLIENT_SECRET", b.admin_password)
    ∷ ("BOSH_CA_CERT", b.ca_certificate)
    ∷ ("BOSH_GW_HOST", b.gateway_host)
    ∷ ("BOSH_GW_PRIVATE_KEY", b.gateway_private_key)
    ∷ ("BOSH_GW_USER", b.gateway_username)
    ∷ []

first_piece : List String → String
first_piece [] = ""
first_piece (p ∷ ps) = p

unset_line : Bool → String → String
unset_line is_windows name =
    if is_windows then "Remove-Item Env:" <> name <> ";\n" else "unset " <> name <> ";\n"

export_line : Bool → String → String → String
export_line is_windows name value =
    if is_windows
    then "$env:" <> name <> "=\"" <> value <> "\";\n"
    else "export " <> name <> "=\"" <> value <> "\";\n"

-- The lines for the variables of the environment, each a name, `=` and a value.
unsets : Bool → List String → String
unfolding first_piece unset_line
unsets is_windows [] = ""
unsets is_windows (v ∷ vs) =
    let rest = unsets is_windows vs in
    if has_prefix (codes v) (codes "BOSH_")
    then unset_line is_windows (first_piece (split b'=' v)) <> rest
    else rest

export_lines : Bool → List (String × String) → String
unfolding export_line
export_lines is_windows [] = ""
export_lines is_windows ((name, value) ∷ ps) =
    export_line is_windows name value <> export_lines is_windows ps

-- `Prepare`, which cannot fail.
unfoldable pub prepare : Bool → List String → BoshConfig → String
unfolding unsets exports export_lines
prepare is_windows environ b =
    trimmed (unsets is_windows environ <> export_lines is_windows (exports b))
