-- ===== src/Core/GeneratorTests.antt =====
-- The generator on a file with two messages, one of which has a name without a suffix.
use text.Mathlib.Text.{◌==◌ as str_eq}
use mine_net.Base.{◌≡◌, refl, true, false, [], ◌∷◌, if◌then◌else◌}
use mine_net.Base.Int.{pos, to_uint64}
use mine_net.Core.Generator.{
  Letters, ProtoFile, split, split_from, to_struct_name, collect_messages, collect_files,
}

-- Letters of the words that stand in the file.
abbrev words : Letters
words = record {
  to_lower = λ s. if str_eq s "LOGIN" then "login" else if str_eq s "CHAT" then "chat" else s;
  title = λ s. if str_eq s "login" then "Login" else if str_eq s "chat" then "Chat" else s;
}

abbrev login_proto : ProtoFile
login_proto = record {
  generate = true;
  go_package_name = "login";
  enums =
      (record {
        name = "MsgType";
        values =
            (record { name = "MSG_TYPE_UNKNOWN"; number = pos 0 })
            ∷ (record { name = "MSG_TYPE_LOGIN_REQ"; number = pos 1001 })
            ∷ (record { name = "MSG_TYPE_CHAT"; number = pos 1003 })
            ∷ [];
      })
      ∷ [];
}

parts : split "MSG_TYPE_LOGIN" ≡ "MSG" ∷ "TYPE" ∷ "LOGIN" ∷ []
unfolding split_from
parts = refl

struct_name : to_struct_name words "MSG_TYPE_LOGIN_REQ" ≡ "Login"
unfolding to_struct_name split_from
struct_name = refl

-- The message without a suffix has no type, and the template then writes `login.` alone.
collected : collect_files words (login_proto ∷ (record login_proto { generate = false }) ∷ []) ≡ (
  (record {
    name = "MSG_TYPE_LOGIN_REQ";
    type_name = "LoginRequest{}";
    id = 1001;
    enum_name = "MsgType";
    package_name = "login";
  })
      ∷ (record {
        name = "MSG_TYPE_CHAT";
        type_name = "";
        id = 1003;
        enum_name = "MsgType";
        package_name = "login";
      })
      ∷ [],
  "mineNet/proto/login" ∷ [],
)
unfolding collect_files collect_messages to_struct_name split_from to_uint64
collected = refl
