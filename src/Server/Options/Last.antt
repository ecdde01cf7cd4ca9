-- ===== src/Server/Options/Last.antt =====
-- The last option of a kind counts.
use atophttpd.Prelude.{
  ℕ, ◌≡◌, refl, sym, subst, inl, inr, Bool, true, false, ◌||◌, List, [], ◌∷◌, Option, none, some, ℤ,
  pos, Bytes, ◌==◌, ==_iff, if◌then◌else◌, done, All, Bool-cases, arith,
}
use atophttpd.Server.Options.{
  default_tls_port, Settings, atoi, atoi_optarg, Turn, next, showhelp, showversion, set_option,
  read_options,
}

abbrev pub Answer : Type 0
Answer = ℕ × Option Bytes

-- An option that requires an argument has one.
abbrev pub HasNumber : Answer → Type 0
HasNumber (ch, optarg) = (ch == b'p') ≡ true → (text : Bytes) × (optarg ≡ some text)

-- The letters of the options that set something, and 0.
abbrev pub is_setting : ℕ → Bool
is_setting ch =
    ch == 0
    || (ch == b'd'
        || (ch == b'D'
            || (ch == b'p'
                || (ch == b'a'
                    || (ch == b'P'
                        || (ch == b't'
                            || (ch == b'A'
                                || (ch == b'C' || (ch == b'c' || (ch == b'k' || ch == b'H'))))))))))

-- The first option that ends the program.
abbrev pub first_quit : List Answer → Option Turn
first_quit [] = none
first_quit ((ch, optarg) ∷ rest) =
    let more = first_quit rest in
    if is_setting ch then more else some (if ch == b'V' then showversion else showhelp)

-- The value that the last option with a letter gives, or the one that is there.
module _ {A : Type 0} where
  abbrev pub latest : ℕ → (Option Bytes → A) → List Answer → A → A
  latest letter value [] old = old
  latest letter value ((ch, optarg) ∷ rest) old =
      latest letter value rest (if ch == letter then value optarg else old)

-- A number of `-p`, of `-t`.
abbrev port_of : Option Bytes → ℤ
port_of none = pos 0
port_of (some text) = atoi text

abbrev tls_port_of : Option Bytes → ℤ
tls_port_of none = default_tls_port
tls_port_of (some text) = atoi text

abbrev itself : Option Bytes → Option Bytes
itself optarg = optarg

abbrev set : Option Bytes → Bool
set optarg = true

-- Every setting by itself, as the options of its letter say.
unfoldable pub settings_of : List Answer → Settings → Settings
settings_of opts s = record {
  config = record {
    port = latest b'p' port_of opts s.config.port;
    daemonmode = latest b'd' set opts s.config.daemonmode;
    addr = latest b'a' itself opts s.config.addr;
    log_path = latest b'P' itself opts s.config.log_path;
    tls_ctx_config = record {
      tls_port = latest b't' tls_port_of opts s.config.tls_ctx_config.tls_port;
      tls_addr = latest b'A' itself opts s.config.tls_ctx_config.tls_addr;
      ca_cert_file = latest b'C' itself opts s.config.tls_ctx_config.ca_cert_file;
      cert_file = latest b'c' itself opts s.config.tls_ctx_config.cert_file;
      key_file = latest b'k' itself opts s.config.tls_ctx_config.key_file;
    };
  };
  debug = latest b'D' set opts s.debug;
  hidecmdline = latest b'H' set opts s.hidecmdline;
}

-- What one option does.
abbrev Sets : Option Bytes → Settings → ℕ → Type 0
Sets optarg s ch = set_option ch optarg s ≡ done (next (settings_of ((ch, optarg) ∷ []) s))

by_letter : (Q : ℕ → Type 0) (ch c : ℕ) → (ch == c) ≡ true → Q c → Q ch
by_letter Q ch c h q = subst Q (sym ((==_iff ch c).0 h)) q

set_option-Sets :
    (ch : ℕ) (optarg : Option Bytes) (s : Settings)
    → HasNumber (ch, optarg)
    → is_setting ch ≡ true
    → Sets optarg s ch
unfolding set_option settings_of atoi_optarg
set_option-Sets ch optarg s h known = ground arith

set_option-quits :
    (ch : ℕ) (optarg : Option Bytes) (s : Settings)
    → is_setting ch ≡ false
    → set_option ch optarg s ≡ done (if ch == b'V' then showversion else showhelp)
unfolding set_option
set_option-quits ch optarg s h = ground arith

-- The options as a whole.
abbrev or_next : Option Turn → Settings → Turn
or_next none s = next s
or_next (some turn) s = turn

abbrev pub outcome : List Answer → Settings → Turn
outcome opts s = or_next (first_quit opts) (settings_of opts s)

-- When `getopt_long` gives every `-p` its argument, the loop over the options does not crash: the first
-- option for a help text or the version, or an unknown one, ends it, and otherwise every setting is that
-- of the last option with its letter, or as it was where there is none.
pub read_options_lem :
    (opts : List Answer) (s : Settings)
    → All HasNumber opts
    → read_options opts s ≡ done (outcome opts s)
unfolding read_options settings_of
read_options_lem [] s h = refl
read_options_lem ((ch, optarg) ∷ rest) s h = elim (Bool-cases (is_setting ch)) [
  | inl y ↦
      rw (set_option-Sets ch optarg s h.0 y, y)
        (read_options_lem rest (settings_of ((ch, optarg) ∷ []) s) h.1)
  | inr n ↦ elim (Bool-cases (ch == b'V')) [
    | inl v ↦ rw (set_option-quits ch optarg s n, n, v) refl
    | inr k ↦ rw (set_option-quits ch optarg s n, n, k) refl
  ]
]
