-- ===== src/Config/Files.antt =====
-- Whole configuration files of the documented form, and what read_config of src/config.c makes of them.
use open_hybrid.Base.{
  ℕ, ◌<◌, true, false, List, [], ◌∷◌, ◌++◌, some, length, All, leb, ◌==◌, arith, ◌≡◌, refl, ap, sym,
  ◌∙◌, All-append,
}
use open_hybrid.Base.Text.{IsPlain}
use open_hybrid.Runtime.{Runtime}
use open_hybrid.Os.{Os}
use open_hybrid.Config.{
  Loading, loaded, exited, overflow, and_then, get_lines, read_event_script_path, read_line,
  read_lines, defaults_first, defaults_last, read_config,
}
use open_hybrid.Config.Print.{
  Setting, haap_anycast_ip, lte_interface, dsl_interface, tunnel_interface, bonding, log_level,
  tunnel_interface_mtu, active_hello_interval, hello_retry_times, event_script_path,
  reorder_buffer_timeout, key, value, apply, IsPrintable, all_plain, all_plain_sound,
  read_line-print,
}

-- An entry of a file. A comment is any text behind a '#'.
pub data Entry : Type 0 where
  setting : Setting → Entry
  comment : List ℕ → Entry
  blank : Entry

abbrev pub entry_line : Entry → List ℕ
entry_line (setting s) = key s ++ value s
entry_line (comment text) = 35 ∷ text
entry_line blank = []

abbrev pub print_file : List Entry → List ℕ
print_file [] = []
print_file (e ∷ es) = entry_line e ++ 10 ∷ print_file es

abbrev pub IsEntry : Entry → Type 0
IsEntry (setting s) = IsPrintable s
IsEntry (comment text) = All IsPlain text
IsEntry blank = Unit

abbrev pub apply_entry : Os → Entry → Runtime → Loading
apply_entry os (setting s) r = apply os s r
apply_entry os (comment text) r = loaded r
apply_entry os blank r = loaded r

-- The entries of a file take effect one after the other.
abbrev pub apply_all : Os → List Entry → Runtime → Loading
apply_all os [] r = loaded r
apply_all os (e ∷ es) r = and_then (apply_entry os e r) (apply_all os es)

get_lines-plain :
    (line text : List ℕ) → All IsPlain line → get_lines (line ++ 10 ∷ text) ≡ line ∷ get_lines text
unfolding get_lines
get_lines-plain [] text h = refl
get_lines-plain (c ∷ line) text ((z, n), h) =
    let other : (c == 10) ≡ false = ground arith in simp (other, get_lines-plain line text h) refl

key-plain : (s : Setting) → all_plain (key s) ≡ true
unfolding all_plain
key-plain (haap_anycast_ip v) = refl
key-plain (lte_interface v) = refl
key-plain (dsl_interface v) = refl
key-plain (tunnel_interface v) = refl
key-plain (bonding v) = refl
key-plain (log_level v) = refl
key-plain (tunnel_interface_mtu v) = refl
key-plain (active_hello_interval v) = refl
key-plain (hello_retry_times v) = refl
key-plain (event_script_path v) = refl
key-plain (reorder_buffer_timeout v) = refl

entry_line-IsPlain : (e : Entry) → IsEntry e → All IsPlain (entry_line e)
entry_line-IsPlain (setting s) (l, h) =
    All-append IsPlain (key s) (value s) (all_plain_sound (key s) (key-plain s)) h
entry_line-IsPlain (comment text) h = ((omega arith, omega arith), h)
entry_line-IsPlain blank h = tt

read_line-entry :
    (os : Os) (e : Entry) (r : Runtime)
    → IsEntry e
    → read_line os (entry_line e) r ≡ apply_entry os e r
unfolding read_line
read_line-entry os (setting s) r h = read_line-print os s r h
read_line-entry os (comment text) r h = refl
read_line-entry os blank r h = refl

and_then-ext :
    (m : Loading) (f g : Runtime → Loading)
    → ((r : Runtime) → f r ≡ g r)
    → and_then m f ≡ and_then m g
and_then-ext (loaded r) f g h = h r
and_then-ext exited f g h = refl
and_then-ext overflow f g h = refl

read_lines-print :
    (os : Os) (es : List Entry) (r : Runtime)
    → All IsEntry es
    → read_lines os (get_lines (print_file es)) r ≡ apply_all os es r
unfolding read_lines get_lines
read_lines-print os [] r h = refl
read_lines-print os (e ∷ es) r (h, hs) =
    ap (λ lines. read_lines os lines r)
      (get_lines-plain (entry_line e) (print_file es) (entry_line-IsPlain e h))
    ∙ ap (λ m. and_then m (read_lines os (get_lines (print_file es)))) (read_line-entry os e r h)
    ∙ and_then-ext (apply_entry os e r) _ _ (λ r1. read_lines-print os es r1 hs)

-- A file of settings, comments and blank lines, each on a line of its own, the values neither empty
-- nor with a zero or an end of line in them, does what its settings do one after the other,
-- between the two parts of the defaults.
pub read_config-print_file :
    (os : Os) (es : List Entry) (r : Runtime)
    → All IsEntry es
    → read_config os (some (print_file es)) r
      ≡ and_then (apply_all os es (defaults_first r)) (λ r1. loaded (defaults_last os r1))
unfolding read_config
read_config-print_file os es r h =
    ap (λ m. and_then m (λ r1. loaded (defaults_last os r1)))
      (read_lines-print os es (defaults_first r) h)

and_then_assoc :
    (m : Loading) (f g : Runtime → Loading)
    → and_then (and_then m f) g ≡ and_then m (λ r. and_then (f r) g)
and_then_assoc (loaded r) f g = refl
and_then_assoc exited f g = refl
and_then_assoc overflow f g = refl

apply_all-append :
    (os : Os) (before after : List Entry) (r : Runtime)
    → apply_all os (before ++ after) r ≡ and_then (apply_all os before r) (apply_all os after)
apply_all-append os [] after r = refl
apply_all-append os (b ∷ before) after r =
    and_then-ext (apply_entry os b r) _ _ (λ r1. apply_all-append os before after r1)
    ∙ sym (and_then_assoc (apply_entry os b r) (apply_all os before) (apply_all os after))

-- A file of the documented form whose entries up to a setting of the event script path are taken
-- over, and whose script path has more than 128 characters, writes behind the array of the path.
pub read_config_overflow :
    (os : Os) (before after : List Entry) (path : List ℕ) (r r1 : Runtime)
    → All IsEntry (before ++ setting (event_script_path path) ∷ after)
    → apply_all os before (defaults_first r) ≡ loaded r1
    → 128 < length path
    → read_config os (some (print_file (before ++ setting (event_script_path path) ∷ after))) r
      ≡ overflow
unfolding read_event_script_path
read_config_overflow os before after path r r1 h e long =
    let refused : leb (length path) 128 ≡ false = ground arith in
    read_config-print_file os _ r h
    ∙ ap (λ m. and_then m (λ r2. loaded (defaults_last os r2)))
        (apply_all-append os before (setting (event_script_path path) ∷ after) _
          ∙ ap (λ m. and_then m (apply_all os (setting (event_script_path path) ∷ after))) e)
    ∙ simp (refused) refl
