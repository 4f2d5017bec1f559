-- ===== src/Tests/Vdf.antt =====
-- Runs of core/cleaner/vdf_tree.cpp.
use steam_account_manager.Common.{
  ℕ, ◌+◌, List, [], ◌++◌, ◌≡◌, ◌≢◌, refl, ◌||◌, Bool, ◌==◌, leb, ◌&&◌, some, length, text_eq,
}
use steam_account_manager.Codec.Base64.{codes}
use steam_account_manager.VdfTree.{Node, object, leaf, Children, nil, entry, Document, set}
use steam_account_manager.VdfTree.Parser.{
  ok, err, out_of_fuel, ParseError, Message, parse, parse_document, parse_root, parse_object,
  parse_round, parse_value, read_string, read_word, read_quoted_from, read_bare_from, ends_bare,
  unescape, skip_from, advance, strip_bom,
}
use steam_account_manager.VdfTree.Writer.{
  serialize, write_node, write_children, escape, escape_chars, escape_char,
}
use steam_account_manager.VdfTree.Quoted.{IsSpaceTest}
use steam_account_manager.VdfTree.RoundTrip.{parse-serialize}
use steam_account_manager.VdfTree.ErrorPosition.{parse-err_position, newlines, last_line}
use steam_account_manager.VdfTree.Progress.{Explains}
use steam_account_manager.VdfTree.Fuel.{parse-ne-out_of_fuel}
use steam_account_manager.VdfTree.Lookup.{count}

-- `iswspace` in the C locale.
abbrev c_iswspace : ℕ → Bool
c_iswspace c = c == b' ' || (leb 9 c && leb c 13)

c_iswspace-IsSpaceTest : IsSpaceTest c_iswspace
c_iswspace-IsSpaceTest = record {
  tab = refl;
  newline = refl;
  quote = refl;
  open_brace = refl;
  close_brace = refl;
}

abbrev users : Children
users =
    entry (codes "1") (object (entry (codes "AccountName") (leaf (codes "bob\"\\")) nil))
      (entry (codes "") (leaf []) (entry (codes "1") (object nil) nil))

abbrev users_doc : Document
users_doc = record { root_key = codes "users"; root = object users }

users_text :
    serialize
      (record { root_key = codes "u"; root = object (entry (codes "k") (leaf (codes "v\"")) nil) })
    ≡ codes "\"u\"\n{\n\t\"k\"\t\t\"v\\\"\"\n}\n"
unfolding serialize write_node write_children escape escape_chars escape_char
users_text = refl

-- Comments, bare words and conditional suffixes.
reads_bare :
    parse c_iswspace (codes "u { k v // x\n a [$WIN32] { } }")
    ≡ ok (record {
      root_key = codes "u";
      root = object (entry (codes "k") (leaf (codes "v")) (entry (codes "a") (object nil) nil));
    })
unfolding parse parse_document parse_root parse_object parse_round parse_value read_string read_word
    read_quoted_from read_bare_from ends_bare unescape skip_from advance
reads_bare = refl

abbrev cut_error : ParseError
cut_error = record { line = 2; column = 3; message = Message.expected_value }

cut_text : parse c_iswspace (codes "u {\nk }") ≡ err cut_error
unfolding parse parse_document parse_root parse_object parse_round parse_value read_string read_word
    read_quoted_from read_bare_from ends_bare unescape skip_from advance
cut_text = refl

parse-serialize_example : parse c_iswspace (serialize users_doc) ≡ ok users_doc
parse-serialize_example = parse-serialize c_iswspace-IsSpaceTest (codes "users") users

parse-err_position_example :
    (read : List ℕ) × (unread : List ℕ) × (strip_bom (codes "u {\nk }") ≡ read ++ unread)
    × (cut_error.line ≡ 1 + newlines read)
    × (cut_error.column ≡ 1 + length (last_line read))
    × Explains c_iswspace cut_error.message unread
parse-err_position_example = parse-err_position c_iswspace (codes "u {\nk }") cut_text

parse-ne-out_of_fuel_example : parse c_iswspace (codes "u {\nk }") ≢ out_of_fuel
parse-ne-out_of_fuel_example = parse-ne-out_of_fuel c_iswspace (codes "u {\nk }")

abbrev new_node : Node
new_node = object (entry (codes "k") (leaf (codes "new")) nil)

set_runs :
    set (object (entry (codes "k") (leaf (codes "old")) nil)) (codes "k") (leaf (codes "new"))
    ≡ some new_node
unfolding set text_eq
set_runs = refl

twice_in : count (codes "1") users ≡ 2
unfolding count text_eq
twice_in = refl
