-- ===== src/Cli/Xclip.antt =====
-- src/cli.rs under the names xclip and xsel: the arguments of those programs, and what they do.
pub mod Selection
use zsync.Base.{
  ltb, leb, eqb, if◌then◌else◌, ltb→lt, lt→ltb, le→ltb, leb→le, eqb_iff, Bool-cases, Option-cases,
  length, get_or, take, drop, replicate, is_empty, any, all, keep, All, length-append, length-drop,
  length-take, take-append, drop-append, take-append-drop, take-length, any-append, length-keep-le,
  Bytes, Text, codes, text_beq, text_beq_iff, text_eq, starts_with, utf8_width, text_len, ◌>>=◌,
  ◌>>◌, fail_if, or_fail, Result-cases, Result, Eq, ◌==◌, nat_eq, ok, err, ℕ, zero, suc, ◌+◌, ◌-◌,
  ◌*◌, ◌/◌, ◌%◌, ◌^◌, ◌≤◌, ◌<◌, min, max, ◌≡◌, refl, sym, ap, ap₂, ◌∙◌, subst, ◌≢◌, ◌↔◌, ◌⊎◌, inl,
  inr, Bool, true, false, not, ◌&&◌, ◌||◌, Option, none, some, List, [], ◌∷◌, ◌++◌, map,
  append_assoc, append-nil, arith,
}
use zsync.Base.Map.{lookup}
use zsync.Base.Paths.{file_name, rsplit_once}
use zsync.Protocol.{max_clip}
use zsync.Clipboard.{Backend}
use zsync.Clipboard.File.{Files}
use zsync.Net.{PeerTarget}
use zsync.Cli.{
  Machine, Shell, CliError, Done, exclusive, exceeds_limit, unreadable, exits, printed, piped,
  put_clipboard,
}
use zsync.Cli.Paste.{paste}

-- `Path::file_stem`: the file name without what follows its last dot, which must not start it.
unfoldable pub file_stem : Text → Option Text
file_stem path = elim (file_name path) [
  | none ↦ none
  | some name ↦ elim (rsplit_once b'.' name) [
    | none ↦ some name
    | some (before, after) ↦ if is_empty before then some name else some before
  ]
]

abbrev pub is_one_of : Text → List Text → Bool
is_one_of a names = any (λ name. name == a) names

unfoldable pub looks_like_xclip : List Text → Bool
unfolding file_stem
looks_like_xclip [] = false
looks_like_xclip (argv0 ∷ _) = elim (file_stem argv0) [
  | none ↦ false
  | some stem ↦ is_one_of stem (codes "xclip" ∷ codes "xsel" ∷ [])
]

abbrev pub xclip_args : List Text → List Text
xclip_args argv = drop 1 argv

pub record XclipOpts : Type 0 where
  pub output : Bool
  pub input : Bool
  pub filter : Bool
  pub drop_last_nl : Bool
  pub file : Option Text

-- An argument; `takes_value` is an option whose value is passed over.
pub data Arg : Type 0 where
  output input filter drop_last_nl takes_value ignored help version file : Arg

unfoldable pub arg_of : Text → Arg
arg_of a =
    if is_one_of a (codes "-o" ∷ codes "-out" ∷ codes "--output" ∷ [])
    then output
    else if is_one_of a (codes "-i" ∷ codes "-in" ∷ codes "--input" ∷ [])
    then input
    else if is_one_of a (codes "-f" ∷ codes "-filter" ∷ [])
    then filter
    else if is_one_of a (codes "-r" ∷ codes "-rmlastnl" ∷ [])
    then drop_last_nl
    else if is_one_of a (
        codes "-selection"
        ∷ codes "-d"
        ∷ codes "-display"
        ∷ codes "-t"
        ∷ codes "-target"
        ∷ codes "-loops"
        ∷ codes "-l"
        ∷ [])
    then takes_value
    else if is_one_of a (
        codes "-silent"
        ∷ codes "-quiet"
        ∷ codes "-verbose"
        ∷ codes "-noutf8"
        ∷ codes "--clipboard"
        ∷ codes "-b"
        ∷ codes "--primary"
        ∷ codes "-p"
        ∷ codes "--secondary"
        ∷ codes "-s"
        ∷ codes "--nodetach"
        ∷ codes "--detach"
        ∷ codes "-n"
        ∷ codes "--newline"
        ∷ [])
    then ignored
    else if is_one_of a (codes "-h" ∷ codes "-help" ∷ codes "--help" ∷ [])
    then help
    else if is_one_of a (codes "-version" ∷ codes "--version" ∷ [])
    then version
    else if starts_with a (codes "-")
    then ignored
    else file

abbrev pub no_opts : XclipOpts
no_opts = record {
  output = false;
  input = false;
  filter = false;
  drop_last_nl = false;
  file = none;
}

-- The loop over the arguments; `shown` is what `-version` prints.
unfoldable pub parse_from : Bytes → XclipOpts → List Text → Result CliError XclipOpts
parse_from shown opts [] = ok opts
parse_from shown opts (a ∷ []) = elim (arg_of a) [
  | output ↦ ok (record opts { output = true })
  | input ↦ ok (record opts { input = true })
  | filter ↦ ok (record opts { filter = true })
  | drop_last_nl ↦ ok (record opts { drop_last_nl = true })
  | takes_value ↦ ok opts
  | ignored ↦ ok opts
  | help ↦ err (exits [])
  | version ↦ err (exits shown)
  | file ↦ ok (record opts { file = some a })
]
parse_from shown opts (a ∷ b ∷ args) = elim (arg_of a) [
  | output ↦ parse_from shown (record opts { output = true }) (b ∷ args)
  | input ↦ parse_from shown (record opts { input = true }) (b ∷ args)
  | filter ↦ parse_from shown (record opts { filter = true }) (b ∷ args)
  | drop_last_nl ↦ parse_from shown (record opts { drop_last_nl = true }) (b ∷ args)
  | takes_value ↦ parse_from shown opts args
  | ignored ↦ parse_from shown opts (b ∷ args)
  | help ↦ err (exits [])
  | version ↦ err (exits shown)
  | file ↦ parse_from shown (record opts { file = some a }) (b ∷ args)
]

unfoldable pub parse_xclip_args : Bytes → List Text → Result CliError XclipOpts
unfolding parse_from
parse_xclip_args shown args = do
  opts ← parse_from shown no_opts args
  fail_if (opts.output && opts.input) exclusive
  ok opts

-- `data.last() == Some(b'\n')`, and `pop`.
abbrev pub without_last_nl : Bytes → Bytes
without_last_nl [] = []
without_last_nl (b ∷ []) = if b == b'\n' then [] else b ∷ []
without_last_nl (b ∷ c ∷ bs) = b ∷ without_last_nl (c ∷ bs)

-- The file that is given, or the standard input.
unfoldable pub xclip_content : XclipOpts → Shell → Result CliError Bytes
xclip_content opts sh = elim opts.file [
  | none ↦ ok (piped sh)
  | some path ↦ or_fail (lookup path sh.files) unreadable
]

module _ {B : Type 0} (backend : Backend B) (sha256 : Bytes → Bytes) (is_ipv6 : Text → Bool)
    (b64_decode : Text → Option Bytes) (resolve : PeerTarget → Option PeerTarget) (clipboard : Text)
    (pid : ℕ) where
  -- The bytes are printed before they are copied, if that is asked for.
  unfoldable pub xclip_copy : Machine B → Shell → XclipOpts → Bytes → ℕ → Bool → Done B
  unfolding put_clipboard
  xclip_copy m sh opts data_bytes now saves =
      let kept = if opts.drop_last_nl then without_last_nl data_bytes else data_bytes in
      let sh' = if opts.filter then printed sh kept else sh in
      let (m', result) =
        put_clipboard backend sha256 is_ipv6 b64_decode resolve clipboard pid m kept now saves in
      if ltb max_clip (length data_bytes) then (m, sh, err exceeds_limit) else (m', sh', result)

  unfoldable pub xclip_compat :
      (Text → Bool)
      → (Text → Option Text)
      → Text
      → Bytes
      → Machine B
      → Shell
      → List Text
      → ℕ
      → Bool
      → Done B
  unfolding parse_xclip_args xclip_content xclip_copy paste
  xclip_compat allows canonicalize cwd shown m sh args now saves =
      elim (parse_xclip_args shown args) [
        | err e ↦ (m, sh, err e)
        | ok opts ↦
            if opts.output
            then paste backend sha256 is_ipv6 b64_decode resolve clipboard pid allows canonicalize
                cwd m sh false true now saves
            else (elim (xclip_content opts sh) [
              | err e ↦ (m, sh, err e)
              | ok data_bytes ↦ xclip_copy m sh opts data_bytes now saves
            ])
      ]
