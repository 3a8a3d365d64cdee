-- ===== src/Core/Generator.antt =====
-- proto_generate.go outside its template: which messages are collected of the files' enums, and under
-- which type names. strings.ToLower and the Title of golang.org/x/text are parameters.
use Prim.Native.String.{◌++◌, len, slice, find}
use text.Mathlib.Text.{◌==◌ as str_eq}
use mathlib.Core.List.{◌++◌ as ◌+++◌}
use mine_net.Base.{
  ℕ, zero, suc, ◌+◌, ◌-◌, ◌%◌, ◌^◌, Bool, not, ◌&&◌, List, [], ◌∷◌, String, ltb, leb, if◌then◌else◌,
}
use mine_net.Base.Int.{ℤ, to_uint64}

pub record Letters : Type 0 where
  pub to_lower : String → String
  pub title : String → String

-- What protogen gives of an enum and of a file.
pub record EnumValue : Type 0 where
  pub name : String
  pub number : ℤ

pub record EnumDesc : Type 0 where
  pub name : String
  pub values : List EnumValue

pub record ProtoFile : Type 0 where
  pub generate : Bool
  pub go_package_name : String
  pub enums : List EnumDesc

pub record MessageInfo : Type 0 where
  pub name : String
  pub type_name : String
  pub id : ℕ
  pub enum_name : String
  pub package_name : String

abbrev pub has_suffix : String → String → Bool
has_suffix s suffix =
    leb (len suffix) (len s) && str_eq (slice s (len s - len suffix) (len s)) suffix

abbrev pub trim_prefix : String → String → String
trim_prefix s prefix =
    if str_eq (slice s 0 (len prefix)) prefix then slice s (len prefix) (len s) else s

-- strings.Split at the underscores; the text's length is fuel enough.
unfoldable pub split_from : ℕ → String → List String
split_from zero s = s ∷ []
split_from (suc fuel) s =
    let at = find s "_" in
    let rest = split_from fuel (slice s (at + 1) (len s)) in
    if ltb at (len s) then slice s 0 at ∷ rest else s ∷ []

abbrev pub split : String → List String
split s = split_from (len s) s

module _ (letters : Letters) where
  abbrev pub join_titles : List String → String
  join_titles [] = ""
  join_titles (part ∷ parts) =
      if not (str_eq part "REQ") && not (str_eq part "RSP")
      then letters.title (letters.to_lower part) ++ join_titles parts
      else join_titles parts

  unfoldable pub to_struct_name : String → String
  to_struct_name name = join_titles (split (trim_prefix name "MSG_TYPE_"))

  -- The type name of a message; a name with neither suffix is left without one.
  abbrev pub type_of_name : String → String
  type_of_name name =
      if has_suffix name "REQ"
      then to_struct_name name ++ "Request{}"
      else if has_suffix name "RSP"
      then to_struct_name name ++ "Response{}"
      else ""

  abbrev message_of : ProtoFile → EnumDesc → EnumValue → MessageInfo
  message_of file e v = record {
    name = v.name;
    type_name = type_of_name v.name;
    id = to_uint64 v.number % 2 ^ 32;
    enum_name = e.name;
    package_name = file.go_package_name;
  }

  abbrev pub collect_values :
      ProtoFile → EnumDesc → List EnumValue → List MessageInfo → List MessageInfo
  collect_values file e [] rest = rest
  collect_values file e (v ∷ vs) rest =
      if str_eq v.name "MSG_TYPE_UNKNOWN"
      then collect_values file e vs rest
      else message_of file e v ∷ collect_values file e vs rest

  abbrev pub collect_enums : ProtoFile → List EnumDesc → List MessageInfo
  collect_enums file [] = []
  collect_enums file (e ∷ es) =
      if has_suffix e.name "MsgType"
      then collect_values file e e.values (collect_enums file es)
      else collect_enums file es

  abbrev import_of : ProtoFile → List MessageInfo → String
  import_of file [] = ""
  import_of file (m ∷ ms) = "mineNet/proto/" ++ file.go_package_name

  unfoldable pub collect_messages : ProtoFile → List MessageInfo × String
  collect_messages file =
      let messages = collect_enums file file.enums in (messages, import_of file messages)

  -- The loop of main over the files: the messages and the imports of those that are generated.
  abbrev add_import : String → List String → List String
  add_import imp imports = if str_eq imp "" then imports else imp ∷ imports

  unfoldable pub collect_files : List ProtoFile → List MessageInfo × List String
  collect_files [] = ([], [])
  collect_files (f ∷ fs) =
      let rest = collect_files fs in
      let mine = collect_messages f in
      if f.generate then (mine.0 +++ rest.0, add_import (mine.1) (rest.1)) else rest
