-- ===== src/Agdcslog/Handler.antt =====
-- internal/agdcslog/agdcslog.go: the handler of records. Package log/slog writes a record as text:
-- what it writes is a parameter, as the attributes themselves are.
use ad_guard_dnscli.Base.{
  ℕ, ◌≡◌, ℤ, pos, negsuc, leb_int, Bool, ◌&&◌, Option, none, some, List, [], ◌∷◌, ◌++◌, GoString,
  if◌then◌else◌, length, take, refl, ap, ◌∙◌, arith, length-append, take-append,
}
use ad_guard_dnscli.Errors.{Error, wrapf}
use ad_guard_dnscli.Agdcslog.Slices.{Arrays, Slice, clip, append, contents}

-- `SystemLogger` (syslog.go).
pub record SystemLogger (S : Type 0) : Type 0 where
  pub debug : GoString → S → S × Option Error
  pub info : GoString → S → S × Option Error
  pub warning : GoString → S → S × Option Error
  pub error : GoString → S → S × Option Error
  pub close : S → S × Option Error

-- The levels of log/slog.
abbrev pub level_debug : ℤ
level_debug = negsuc 3

abbrev pub level_info : ℤ
level_info = pos 0

abbrev pub level_warn : ℤ
level_warn = pos 4

abbrev pub level_error : ℤ
level_error = pos 8

abbrev pub is_level : ℤ → ℤ → Bool
is_level a b = leb_int a b && leb_int b a

-- `slog.Record`; the zero time is 0.
pub record Record (A : Type 0) : Type 0 where
  pub time : ℕ
  pub level : ℤ
  pub message : GoString
  pub attrs : List A

-- `slog.TextHandler`: which attributes it leaves out of a record, and what it writes of one.
pub record TextHandler (A : Type 0) : Type 0 where
  pub is_empty_group : A → Bool
  pub write : Record A → GoString × Option Error

-- The fields that `WithAttrs` sets; all handlers of one log share the others.
pub record SyslogHandler : Type 0 where
  pub level : ℤ
  pub attrs : Slice

-- `bufferedTextHandler`, by its buffer.
abbrev pub reset : GoString → GoString
reset buffer = []

-- `NewSyslogHandler`: a nil slice of attributes.
abbrev pub new_syslog_handler : ℤ → SyslogHandler
new_syslog_handler level = record { level = level; attrs = record { array = 0; len = 0; cap = 0 } }

unfoldable pub enabled : SyslogHandler → ℤ → Bool
enabled h level = leb_int h.level level

-- `msg[:len(msg)-1]`, which panics if there is none.
abbrev pub without_last : GoString → Option GoString
without_last [] = none
without_last (c ∷ msg) = some (take (length msg) (c ∷ msg))

without_last-newline : (line : GoString) → without_last (line ++ b'\n' ∷ []) ≡ some line
without_last-newline [] = refl
without_last-newline (c ∷ line) =
    let newline = b'\n' ∷ [] in
    let one_less : length (line ++ newline) ≡ length (c ∷ line) =
      omega (arith, length-append line newline) in
    ap (λ n. some (take n (c ∷ line ++ newline))) one_less
    ∙ ap (λ s. some s) (take-append (c ∷ line) newline)

-- `WithGroup`.
unfoldable pub with_group : GoString → SyslogHandler → SyslogHandler
with_group name h = h

module _ {A : Type 0} where
  -- `WithAttrs`.
  unfoldable pub with_attrs : (ℕ → ℕ) → List A → Arrays A → SyslogHandler → Arrays A × SyslogHandler
  unfolding append
  with_attrs spare attrs st h =
      let (st', s) = append spare attrs st (clip h.attrs) in (st', record h { attrs = s })

  abbrev pub leave_out : (A → Bool) → List A → List A
  leave_out test [] = []
  leave_out test (a ∷ attrs) = let rest = leave_out test attrs in if test a then rest else a ∷ rest

  -- `Record.AddAttrs`.
  abbrev pub add_attrs : TextHandler A → List A → Record A → Record A
  add_attrs text attrs rec = record rec { attrs = rec.attrs ++ leave_out text.is_empty_group attrs }

  module _ {S : Type 0} (text : TextHandler A) (logger : SystemLogger S) where
    -- The switch over the level: levels without a name are for information.
    unfoldable pub send : ℤ → GoString → S → S × Option Error
    send level msg s =
        if is_level level level_debug
        then logger.debug msg s
        else if is_level level level_info
        then logger.info msg s
        else if is_level level level_warn
        then logger.warning msg s
        else if is_level level level_error
        then logger.error msg s
        else logger.info msg s

    -- What `Handle` leaves in the buffer, and the log after it with an error, or a panic.
    abbrev pub Handled : Type 0
    Handled = GoString × Option (S × Option Error)

    abbrev pub written : ℤ → S → GoString → Option Error → Handled
    written level s buffer (some e) =
        (buffer, some (s, some (wrapf "handling text for msg: %w" [] e)))
    written level s buffer none =
        (buffer, elim (without_last buffer) [ none ↦ none | some msg ↦ some (send level msg s) ])

    -- The record with the handler's attributes and without its time.
    abbrev pub entry : Arrays A → SyslogHandler → Record A → Record A
    entry st h rec = record (add_attrs text (contents st h.attrs) rec) { time = 0 }

    -- `Handle`, with a buffer of the pool as an earlier call has left it.
    unfoldable pub handle : GoString → Arrays A → SyslogHandler → Record A → S → Handled
    unfolding send
    handle buffer st h rec s =
        let (line, e) = text.write (entry st h rec) in written rec.level s (reset buffer ++ line) e

    unfoldable pub close_handler : SyslogHandler → S → S × Option Error
    close_handler h s = logger.close s

    -- A record whose text ends with a newline is sent without it, whatever the buffer had before.
    pub handle-newline :
        (buffer : GoString) (st : Arrays A) (h : SyslogHandler) (rec : Record A) (s : S)
        (line : GoString)
        → text.write (entry st h rec) ≡ (line ++ b'\n' ∷ [], none)
        → handle buffer st h rec s ≡ (line ++ b'\n' ∷ [], some (send rec.level line s))
    unfolding handle
    handle-newline buffer st h rec s line e = rw e (rw (without_last-newline line))
