-- ===== src/Config/Print.antt =====
-- What a configuration file of the documented form means for read_config of src/config.c: settings,
-- comments and blank lines, one on a line.
use open_hybrid.Base.{
  ℕ, ◌≤◌, Bool, true, false, ◌&&◌, not, List, [], ◌∷◌, ◌++◌, some, length, All, ltb, ◌==◌, bytes_eq,
  arith, ◌≡◌, refl, ap, ◌∙◌, All-append,
}
use open_hybrid.Base.Text.{codes, has_prefix, IsPlain, c_string-IsPlain}
use open_hybrid.Runtime.{Runtime}
use open_hybrid.Os.{Os}
use open_hybrid.Logging.{
  Level, log_none, log_fatal, log_error, log_warning, log_info, log_debug, log_crazydebug,
  level_number,
}
use open_hybrid.Dhcp.{to_u32, or_else}
use open_hybrid.Config.{
  Loading, loaded, set_lte_name, set_dsl_name, set_anycast_ip, find_equals, quotient_1000,
  milliseconds_left, read_log_level, read_mtu, read_event_script_path, read_name, read_setting,
  read_value, read_text, read_line,
}

-- The names that read_config accepts.
abbrev pub level_name : Level → List ℕ
level_name log_none = codes "none"
level_name log_fatal = codes "critical"
level_name log_error = codes "error"
level_name log_warning = codes "warning"
level_name log_info = codes "info"
level_name log_debug = codes "debug"
level_name log_crazydebug = codes "crazydebug"

pub data Setting : Type 0 where
  haap_anycast_ip : List ℕ → Setting
  lte_interface : List ℕ → Setting
  dsl_interface : List ℕ → Setting
  tunnel_interface : List ℕ → Setting
  bonding : Bool → Setting
  log_level : Level → Setting
  tunnel_interface_mtu : List ℕ → Setting
  active_hello_interval : List ℕ → Setting
  hello_retry_times : List ℕ → Setting
  event_script_path : List ℕ → Setting
  reorder_buffer_timeout : List ℕ → Setting

abbrev pub key : Setting → List ℕ
key (haap_anycast_ip v) = codes "haap anycast ip = "
key (lte_interface v) = codes "lte interface = "
key (dsl_interface v) = codes "dsl interface = "
key (tunnel_interface v) = codes "tunnel interface = "
key (bonding v) = codes "bonding = "
key (log_level v) = codes "log level = "
key (tunnel_interface_mtu v) = codes "tunnel interface mtu = "
key (active_hello_interval v) = codes "active hello interval = "
key (hello_retry_times v) = codes "hello retry times = "
key (event_script_path v) = codes "event script path = "
key (reorder_buffer_timeout v) = codes "reorder buffer timeout = "

abbrev pub value : Setting → List ℕ
value (haap_anycast_ip v) = v
value (lte_interface v) = v
value (dsl_interface v) = v
value (tunnel_interface v) = v
value (bonding true) = codes "true"
value (bonding false) = codes "false"
value (log_level l) = level_name l
value (tunnel_interface_mtu v) = v
value (active_hello_interval v) = v
value (hello_retry_times v) = v
value (event_script_path v) = v
value (reorder_buffer_timeout v) = v

-- What a setting does. Bonding is switched on, but never off again.
abbrev pub apply : Os → Setting → Runtime → Loading
apply os (haap_anycast_ip v) r =
    loaded (set_anycast_ip r (or_else (os.inet_pton6 v) r.haap.anycast_ip))
apply os (lte_interface v) r = read_name v (set_lte_name r v)
apply os (dsl_interface v) r = read_name v (set_dsl_name r v)
apply os (tunnel_interface v) r = read_name v (record r { tunnel_interface_name = v })
apply os (bonding true) r = loaded (record r { bonding = true })
apply os (bonding false) r = loaded r
apply os (log_level l) r = loaded (record r { log_level = level_number l })
apply os (tunnel_interface_mtu v) r = read_mtu (os.atoi v) r
apply os (active_hello_interval v) r =
    loaded (record r { haap = record r.haap { active_hello_interval = to_u32 (os.atoi v) } })
apply os (hello_retry_times v) r =
    loaded (record r { haap = record r.haap { hello_retry_times = to_u32 (os.atoi v) } })
apply os (event_script_path v) r = read_event_script_path v r
apply os (reorder_buffer_timeout v) r = loaded (record r {
  reorder_buffer_timeout = record {
    tv_sec = quotient_1000 (os.atoi v);
    tv_usec = milliseconds_left (os.atoi v);
  };
})

-- A value is not empty, and has no zero and no end of line.
abbrev pub IsPrintable : Setting → Type 0
IsPrintable s = (1 ≤ length (value s)) × All IsPlain (value s)

unfoldable pub all_plain : List ℕ → Bool
all_plain [] = true
all_plain (c ∷ text) = not (c == 0) && not (c == 10) && all_plain text

pub all_plain_sound : (text : List ℕ) → all_plain text ≡ true → All IsPlain text
unfolding all_plain
all_plain_sound [] h = tt
all_plain_sound (c ∷ text) h = (ground arith, all_plain_sound text (ground arith))

read_value-nonempty :
    (os : Os) (line v : List ℕ) (r : Runtime)
    → 1 ≤ length v
    → read_value os line (some (61 ∷ 32 ∷ v)) r ≡ read_setting os line v r
unfolding read_value
read_value-nonempty os line v r long =
    let more : ltb 2 (length (61 ∷ 32 ∷ v)) ≡ true = ground arith in simp (more) refl

-- A text that starts a line which is neither empty nor a comment.
is_start : List ℕ → Bool
is_start [] = false
is_start (c ∷ text) = not (c == 35)

-- A line "key = value" hands the value on.
read_line-value :
    (os : Os) (name v : List ℕ) (r : Runtime)
    → is_start name ≡ true
    → all_plain name ≡ true
    → find_equals (name ++ v) ≡ some (61 ∷ 32 ∷ v)
    → 1 ≤ length v
    → All IsPlain v
    → read_line os (name ++ v) r ≡ read_setting os (name ++ v) v r
unfolding read_line read_text is_start
read_line-value os [] v r start plain found long h = ground arith
read_line-value os (c ∷ name) v r start plain found long h =
    let same =
      c_string-IsPlain (c ∷ name ++ v)
        (All-append IsPlain (c ∷ name) v (all_plain_sound (c ∷ name) plain) h) in
    let hash : (c == 35) ≡ false = ground arith in
    simp (hash, same, found) (read_value-nonempty os (c ∷ name ++ v) v r long)

level-read : (l : Level) (old : ℕ) → read_log_level (level_name l) old ≡ level_number l
unfolding read_log_level bytes_eq
level-read log_none old = refl
level-read log_fatal old = refl
level-read log_error old = refl
level-read log_warning old = refl
level-read log_info old = refl
level-read log_debug old = refl
level-read log_crazydebug old = refl

-- The line of a setting does what the setting does.
pub read_line-print :
    (os : Os) (s : Setting) (r : Runtime)
    → IsPrintable s
    → read_line os (key s ++ value s) r ≡ apply os s r
unfolding find_equals all_plain read_setting is_start has_prefix bytes_eq
read_line-print os (haap_anycast_ip v) r (l, h) =
    read_line-value os (key (haap_anycast_ip v)) v r refl refl refl l h
read_line-print os (lte_interface v) r (l, h) =
    read_line-value os (key (lte_interface v)) v r refl refl refl l h
read_line-print os (dsl_interface v) r (l, h) =
    read_line-value os (key (dsl_interface v)) v r refl refl refl l h
read_line-print os (tunnel_interface v) r (l, h) =
    read_line-value os (key (tunnel_interface v)) v r refl refl refl l h
read_line-print os (bonding true) r (l, h) =
    read_line-value os (key (bonding true)) (codes "true") r refl refl refl l h
read_line-print os (bonding false) r (l, h) =
    read_line-value os (key (bonding false)) (codes "false") r refl refl refl l h
read_line-print os (log_level v) r (l, h) =
    read_line-value os (key (log_level v)) (level_name v) r refl refl refl l h
    ∙ ap (λ n. loaded (record r { log_level = n })) (level-read v r.log_level)
read_line-print os (tunnel_interface_mtu v) r (l, h) =
    read_line-value os (key (tunnel_interface_mtu v)) v r refl refl refl l h
read_line-print os (active_hello_interval v) r (l, h) =
    read_line-value os (key (active_hello_interval v)) v r refl refl refl l h
read_line-print os (hello_retry_times v) r (l, h) =
    read_line-value os (key (hello_retry_times v)) v r refl refl refl l h
read_line-print os (event_script_path v) r (l, h) =
    read_line-value os (key (event_script_path v)) v r refl refl refl l h
read_line-print os (reorder_buffer_timeout v) r (l, h) =
    read_line-value os (key (reorder_buffer_timeout v)) v r refl refl refl l h
