-- ===== src/CommandLine/Server.antt =====
-- `main` of server/main.cpp: the options, the test on them, and what it starts.
use distributed_kv_store.Prelude.{
  ℕ, ◌^◌, ◌<◌, ◌≡◌, List, [], ◌∷◌, Bytes, codes, eq_bytes, ◌==◌, if◌then◌else◌, arith, Bool-cases,
  inl, inr,
}
use distributed_kv_store.Protocol.Text.{to_string}
use distributed_kv_store.CommandLine.{
  Parsed, exited, parsed, help_or_unknown, OnParsed, help_or_unknown-OnParsed,
}
use distributed_kv_store.CommandLine.Numbers.{atoi, to_unsigned, to_unsigned-small, to_unsigned-lt}

pub record ServerOptions : Type 0 where
  pub port : ℕ
  pub threads : ℕ

abbrev pub server_defaults : ServerOptions
server_defaults = record { port = 6380; threads = 4 }

pub data ServerFlag : Type 0 where
  port_flag threads_flag other_flag : ServerFlag

unfoldable pub server_flag : Bytes → ServerFlag
server_flag arg =
    if eq_bytes arg (codes "--port")
    then port_flag
    else if eq_bytes arg (codes "--threads")
    then threads_flag
    else other_flag

-- An option at the end of the line has no value and is not known.
unfoldable pub server_loop : List Bytes → ServerOptions → Parsed ServerOptions
server_loop [] o = parsed o
server_loop (arg ∷ []) o = help_or_unknown arg
server_loop (arg ∷ value ∷ rest) o = elim (server_flag arg) [
  | port_flag ↦ server_loop rest (record o { port = to_unsigned 16 (atoi value) })
  | threads_flag ↦ server_loop rest (record o { threads = to_unsigned 64 (atoi value) })
  | other_flag ↦ help_or_unknown arg
]

-- The test behind the loop: `parsed` is what the server is started with.
abbrev pub check_threads : Parsed ServerOptions → Parsed ServerOptions
check_threads (exited code) = exited code
check_threads (parsed o) = if o.threads == 0 then exited 1 else parsed o

-- The arguments stand behind the name of the program.
unfoldable pub server_main : List Bytes → Parsed ServerOptions
unfolding server_loop
server_main argv = check_threads (server_loop argv server_defaults)

abbrev pub server_command_line : ServerOptions → List Bytes
server_command_line o =
    codes "--port" ∷ to_string o.port ∷ codes "--threads" ∷ to_string o.threads ∷ []

-- A 16-bit port and a number of threads that is not 0 and below 2 ^ 31, written as options, are
-- what the server is started with.
pub server_main-command_line :
    (o : ServerOptions)
    → o.port < 2 ^ 16
    → 0 < o.threads
    → o.threads < 2 ^ 31
    → server_main (server_command_line o) ≡ parsed o
unfolding server_main server_flag eq_bytes
server_main-command_line o port_fits some_threads threads_fit =
    rw
      (
        to_unsigned-small 16 o.port (omega (arith, port_fits)) port_fits,
        to_unsigned-small 64 o.threads threads_fit (omega (arith, threads_fit)),
      )
      (ground arith)

-- What the loop ends with has numbers that fit their types.
pub record Fits (o : ServerOptions) : Type 0 where
  pub port_fits : o.port < 2 ^ 16
  pub threads_fit : o.threads < 2 ^ 64

server_loop-Fits :
    (argv : List Bytes) (o : ServerOptions) → Fits o → OnParsed Fits (server_loop argv o)
unfolding server_loop
server_loop-Fits [] o h = h
server_loop-Fits (arg ∷ []) o h = help_or_unknown-OnParsed Fits arg
server_loop-Fits (arg ∷ value ∷ rest) o h =
    by_flag (server_flag arg)
      (server_loop-Fits rest _
        (record { port_fits = to_unsigned-lt 16 (atoi value); threads_fit = h.threads_fit }))
      (server_loop-Fits rest _
        (record { port_fits = h.port_fits; threads_fit = to_unsigned-lt 64 (atoi value) }))
  where
    by_flag :
        (f : ServerFlag)
        → OnParsed Fits (server_loop rest (record o { port = to_unsigned 16 (atoi value) }))
        → OnParsed Fits (server_loop rest (record o { threads = to_unsigned 64 (atoi value) }))
        → OnParsed Fits (elim f [
          | port_flag ↦ server_loop rest (record o { port = to_unsigned 16 (atoi value) })
          | threads_flag ↦ server_loop rest (record o { threads = to_unsigned 64 (atoi value) })
          | other_flag ↦ help_or_unknown arg
        ])
    by_flag port_flag a b = a
    by_flag threads_flag a b = b
    by_flag other_flag a b = help_or_unknown-OnParsed Fits arg

-- What the server is started with: numbers that fit their types, and a thread at least.
pub record Startable (o : ServerOptions) : Type 0 where
  pub fits : Fits o
  pub some_threads : 0 < o.threads

-- Whatever the arguments, the server is started with a 16-bit port and a 64-bit number of threads
-- that is not 0, or not at all.
pub server_main-Startable : (argv : List Bytes) → OnParsed Startable (server_main argv)
unfolding server_main
server_main-Startable argv = checked (server_loop argv server_defaults) (
    server_loop-Fits argv server_defaults
      (record { port_fits = omega arith; threads_fit = omega arith }))
  where
    checked : (x : Parsed ServerOptions) → OnParsed Fits x → OnParsed Startable (check_threads x)
    checked (exited code) h = tt
    checked (parsed o) h = elim (Bool-cases (o.threads == 0)) [
      | inl zero_threads ↦ rw (zero_threads, OnParsed) tt
      | inr more ↦ rw (more, OnParsed) (record { fits = h; some_threads = ground (arith, more) })
    ]
