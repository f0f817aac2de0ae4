-- ===== src/Client/Console.antt =====
-- `main` of client/main.cpp: the options, the command of the line or the loop over the lines of the
-- input. Connecting and exchanging a request for a response are parameters on a world; `failed`
-- carries the text of their exception.
use distributed_kv_store.Prelude.{
  ℕ, ◌≡◌, refl, List, [], ◌∷◌, ◌++◌, Bytes, codes, eq_bytes, if◌then◌else◌,
}
use distributed_kv_store.Protocol.Messages.{Request, Response}
use distributed_kv_store.Protocol.Text.{lf}
use distributed_kv_store.Client.{
  split_whitespace, Built, built, refused, build_request, Printed, print_response,
}
use distributed_kv_store.CommandLine.Numbers.{atoi, to_unsigned}

pub data ClientFlag : Type 0 where
  host_flag port_flag other_flag : ClientFlag

unfoldable pub client_flag : Bytes → ClientFlag
client_flag arg =
    if eq_bytes arg (codes "--host")
    then host_flag
    else if eq_bytes arg (codes "--port")
    then port_flag
    else other_flag

pub record ClientOptions : Type 0 where
  pub host : Bytes
  pub port : ℕ
  pub command_args : List Bytes

-- The first argument that is no option with a value begins the command.
unfoldable pub client_options : List Bytes → Bytes → ℕ → ClientOptions
client_options [] host port = record { host = host; port = port; command_args = [] }
client_options (arg ∷ []) host port = record { host = host; port = port; command_args = arg ∷ [] }
client_options (arg ∷ value ∷ rest) host port = elim (client_flag arg) [
  | host_flag ↦ client_options rest value port
  | port_flag ↦ client_options rest host (to_unsigned 16 (atoi value))
  | other_flag ↦ record { host = host; port = port; command_args = arg ∷ value ∷ rest }
]

pub data Exchanged : Type 0 where
  answered : Response → Exchanged
  failed : Bytes → Exchanged

-- A connection, or the text of the exception of `connect_to` or `set_tcp_nodelay`.
pub data Connection : Type 0 where
  connected : Connection
  unreachable : Bytes → Connection

module _ {World : Type 0} (connect : Bytes → ℕ → World → Connection × World)
    (exchange : Request → World → Exchanged × World) where
  -- What was printed, the world, and the exit code once the program has ended.
  pub record Console : Type 0 where
    pub out : Bytes
    pub err : Bytes
    pub world : World

  abbrev pub print_to : Console → Printed → Console
  print_to c p = record c { out = c.out ++ p.out; err = c.err ++ p.err }

  abbrev pub complain : Console → Bytes → Console
  complain c message = record c { err = c.err ++ (codes "kvclient: " ++ (message ++ lf ∷ [])) }

  abbrev pub fatal : Console → Bytes → ℕ × Console
  fatal c message =
      (1, record c { err = c.err ++ (codes "kvclient: fatal: " ++ (message ++ lf ∷ [])) })

  -- The command of the line.
  abbrev pub print_answer : Console → Exchanged × World → ℕ × Console
  print_answer c (answered resp, w) =
      let p = print_response resp in (p.code, print_to (record c { world = w }) p)
  print_answer c (failed message, w) = fatal (record c { world = w }) message

  abbrev pub send_built : Console → Built → ℕ × Console
  send_built c (refused message) = (1, complain c message)
  send_built c (built req) = print_answer c (exchange req c.world)

  unfoldable pub run_command : List Bytes → Console → ℕ × Console
  run_command tokens c = send_built c (build_request tokens)

  -- A line of input; `rest` is the loop over those that follow.
  abbrev pub after_exchange : (Console → ℕ × Console) → Console → Exchanged × World → ℕ × Console
  after_exchange rest c (answered resp, w) =
      rest (print_to (record c { world = w }) (print_response resp))
  after_exchange rest c (failed message, w) = fatal (record c { world = w }) message

  abbrev pub after_build : (Console → ℕ × Console) → Console → Built → ℕ × Console
  after_build rest c (refused message) = rest (complain c message)
  after_build rest c (built req) = after_exchange rest c (exchange req c.world)

  abbrev pub on_tokens : (Console → ℕ × Console) → Console → List Bytes → ℕ × Console
  on_tokens rest c [] = rest c
  on_tokens rest c (t ∷ ts) = after_build rest c (build_request (t ∷ ts))

  unfoldable pub repl : List Bytes → Console → ℕ × Console
  repl [] c = (0, c)
  repl (line ∷ lines) c = on_tokens (repl lines) c (split_whitespace line)

  abbrev pub once_connected : List Bytes → List Bytes → Console → Connection × World → ℕ × Console
  once_connected args lines c (unreachable message, w) = fatal (record c { world = w }) message
  once_connected [] lines c (connected, w) = repl lines (record c { world = w })
  once_connected (t ∷ ts) lines c (connected, w) = run_command (t ∷ ts) (record c { world = w })

  -- The arguments behind the program's name, and the lines of the input.
  unfoldable pub client_main : List Bytes → List Bytes → World → ℕ × Console
  unfolding client_options run_command repl
  client_main argv lines w =
      let o = client_options argv (codes "127.0.0.1") 6380 in
      once_connected o.command_args lines (record { out = []; err = []; world = w })
        (connect o.host o.port w)

  -- The requests that the lines hold, and what sending them does until an exception.
  abbrev pub requests_of_built : Built → List Request → List Request
  requests_of_built (refused message) rest = rest
  requests_of_built (built req) rest = req ∷ rest

  abbrev pub requests_of_tokens : List Bytes → List Request → List Request
  requests_of_tokens [] rest = rest
  requests_of_tokens (t ∷ ts) rest = requests_of_built (build_request (t ∷ ts)) rest

  unfoldable pub requests_of : List Bytes → List Request
  requests_of [] = []
  requests_of (line ∷ lines) = requests_of_tokens (split_whitespace line) (requests_of lines)

  abbrev pub after_sent : (World → ℕ × World) → Exchanged × World → ℕ × World
  after_sent rest (answered resp, w) = rest w
  after_sent rest (failed message, w) = (1, w)

  unfoldable pub send_each : List Request → World → ℕ × World
  send_each [] w = (0, w)
  send_each (r ∷ rs) w = after_sent (send_each rs) (exchange r w)

  abbrev pub EndsAs : ℕ × Console → ℕ × World → Type 0
  EndsAs x y = (x.0 ≡ y.0) × (x.1.world ≡ y.1)

  repl_line :
      (lines : List Bytes) (tokens : List Bytes) (c : Console)
      → ((c' : Console) → EndsAs (repl lines c') (send_each (requests_of lines) c'.world))
      → EndsAs
          (on_tokens (repl lines) c tokens)
          (send_each (requests_of_tokens tokens (requests_of lines)) c.world)
  unfolding send_each
  repl_line lines [] c k = k c
  repl_line lines (t ∷ ts) c k = by_build (build_request (t ∷ ts))
    where
      sent :
          (x : Exchanged × World)
          → EndsAs (after_exchange (repl lines) c x) (after_sent (send_each (requests_of lines)) x)
      sent (answered resp, w) = k (print_to (record c { world = w }) (print_response resp))
      sent (failed message, w) = (refl, refl)

      by_build :
          (b : Built)
          → EndsAs
              (after_build (repl lines) c b)
              (send_each (requests_of_built b (requests_of lines)) c.world)
      by_build (refused message) = k (complain c message)
      by_build (built req) = sent (exchange req c.world)

  -- A session over the lines of the input sends the requests that the lines hold, in order, up to
  -- the first exception; empty lines and refused commands send nothing. It ends with 0, or with 1
  -- after an exception.
  pub repl-send_each :
      (lines : List Bytes) (c : Console)
      → ((repl lines c).0 ≡ (send_each (requests_of lines) c.world).0)
        × ((repl lines c).1.world ≡ (send_each (requests_of lines) c.world).1)
  unfolding repl requests_of
  repl-send_each [] c = unfold send_each in (refl, refl)
  repl-send_each (line ∷ lines) c = repl_line lines (split_whitespace line) c (repl-send_each lines)
