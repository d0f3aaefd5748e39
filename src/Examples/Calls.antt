-- ===== src/Examples/Calls.antt =====
-- A docker engine, a validator, connections and a signer, each as small as the theorems allow.
use mathlib.Core.Path.{subst}
use computing_api.Base.{
  IsBytes, List, Result, Str, [], arith, drop, err, false, foreign, if◌then◌else◌, length, lift,
  ltb, none, ok, ok-injective, refl, suc, text, true, ℕ, ◌++◌, ◌>>=◌, ◌∷◌, ◌≡◌, ◌≢◌, ◌⊎◌,
}
use computing_api.Base.Int.{pos, to_bits, wrap64, ℤ, ◌+ℤ◌}
use computing_api.Std.Hex.{hex_decode, hex_encode}
use computing_api.Std.Hex.RoundTrip.{hex_decode-hex_encode}
use computing_api.Docker.Build.{Tree, add_dir, add_file, build_image, dir, end, entry, file, walk}
use computing_api.Std.Tar.{Block, empty_writer, write_header}
use computing_api.Docker.Build.Laws.{
  IsReadable, build_image_sends, listing, whole_dir, whole_end, whole_entry, whole_file,
}
use computing_api.Docker.Build.Sent.{build_image_prefix, names, paths}
use computing_api.Docker.Images.{Engine, Stream, last_line, print_out, push_image, scan_error}
use computing_api.Docker.Images.Push.{push_image_iff}
use computing_api.Prover.{GridProver, calculate_wating_time, node_bytes, round, submits}
use computing_api.Prover.Client.{Web, client_round, generate_pow}
use computing_api.Prover.Client.Laws.{round-client_round}
use computing_api.Backend.{Grpc, Session, new_client, new_computing_processor}
use computing_api.Backend.Clients.{Paired, Reachable-Paired, dialled, fresh}
use computing_api.Auth.{Crypto, sig_to_address, sign}
use computing_api.Model.{AuthInfo}
use computing_api.Local.{check_auth_info}
use computing_api.Cmd.Sign.{HexLaws, sign_cmd, sign_cmd-check_auth_info}
use computing_api.Examples.{toy}
use computing_api.Std.Strconv.{format_uint}
use computing_api.Std.Bufio.{scan_lines}

-- An engine that refuses pushes until the third.
abbrev third_push : ℕ → Result Stream
third_push n =
    if ltb n 2 then err (foreign "unavailable") else ok (record { content = []; failed = none })

abbrev engine : Engine
engine = record {
  State = ℕ;
  image_push = λ image n. (third_push n, suc n);
  image_build = λ blocks image n. (ok (record { content = []; failed = none }), suc n);
  image_list = λ n. ok [];
  image_remove = λ id n. (ok tt, n);
  images_prune = λ n. (ok tt, n);
  containers_prune = λ n. (ok tt, n);
  sleep = λ n. n;
  error_of = λ line. [];
}

push_image_iff_example : (push_image engine (text "app") 0).0 ≡ ok tt
unfolding print_out
push_image_iff_example =
    (push_image_iff engine (text "app") 0).1 (2, omega arith, (refl, (refl, refl)))

-- A directory with a file and a directory in it, which has a file.
abbrev readable_file : Str → Tree
readable_file content =
    file (ok (length content)) (ok (record { content = content; failed = none }))

abbrev context : Tree
context = dir (
    entry (text "Dockerfile") (readable_file (text "FROM scratch")) (
      entry (text "src") (dir (entry (text "main.go") (readable_file (text "package main")) end))
        end))

context-IsReadable : IsReadable context
context-IsReadable = whole_dir (
    whole_entry (whole_file _)
      (whole_entry (whole_dir (whole_entry (whole_file _) whole_end)) whole_end))

build_image_sends_example :
    build_image engine context (text "app") 0
    ≡ (engine.image_build (listing [] context) (text "app") >>= λ rd.
          lift (print_out engine.error_of rd))
        0
build_image_sends_example = build_image_sends engine context (text "app") 0 context-IsReadable

-- A socket beside the Dockerfile, which comes before it, leaves the Dockerfile out.
abbrev with_socket : Tree
with_socket = dir (
    entry (text "App.sock") (file (err (foreign "sockets not supported")) (err (foreign "no")))
      (entry (text "Dockerfile") (readable_file (text "FROM scratch")) end))

build_image_prefix_example :
    (blocks : List Block) × (rest : List Str) × (build_image engine with_socket (text "app") 0
      ≡ (engine.image_build blocks (text "app") >>= λ rd. lift (print_out engine.error_of rd)) 0)
    × (names blocks ++ rest ≡ paths [] with_socket)
    × ((rest ≡ []) ⊎ ((walk [] with_socket empty_writer).0 ≢ ok tt))
build_image_prefix_example = build_image_prefix engine with_socket (text "app") 0

left_out :
    (names (walk [] with_socket empty_writer).1.blocks ≡ text "." ∷ [])
    × ((build_image engine with_socket (text "app") 0).0 ≡ ok tt)
unfolding build_image walk write_header print_out scan_lines last_line scan_error add_dir add_file
    text
left_out = (refl, refl)

-- A validator that counts the requests.
abbrev rnd_bytes : Str
rnd_bytes =
    1 ∷ 2 ∷ 3 ∷ 4 ∷ 5 ∷ 6 ∷ 7 ∷ 8 ∷ 9 ∷ 10 ∷ 11 ∷ 12 ∷ 13 ∷ 14 ∷ 15 ∷ 16 ∷ 17 ∷ 18 ∷ 19 ∷ 20 ∷ 21
    ∷ 22 ∷ 23 ∷ 24 ∷ 25 ∷ 26 ∷ 27 ∷ 28 ∷ 29 ∷ 30 ∷ 31 ∷ 32 ∷ []

rnd_IsBytes : IsBytes rnd_bytes
rnd_IsBytes = ground arith

abbrev web : Web
web = record {
  State = ℕ;
  new_request = λ url. ok tt;
  exchange = λ req n. (ok (record { status = 200; body = ok [] }), suc n);
  marshal_proof = λ proof. ok [];
  unmarshal_rnd = λ body. ok (hex_encode rnd_bytes);
  unmarshal_count = λ body. ok (pos 3);
  unmarshal_setting = λ body. ok (pos 0, pos 10, pos 10, pos 100);
}

abbrev prover : GridProver
prover = record {
  node = record { address = b'n' ∷ []; id = 1 };
  last = pos 960;
  prepare_interval = 10;
  prover_interval = 10;
  wait_interval = 100;
  diffcult = 10;
  doned = false;
  validator_url = [];
}

abbrev search_42 : Str → ℕ → ℤ × ℤ
search_42 prefix diffcult = (pos 0, pos 42)

round-client_round_example :
    round prover (client_round web [] (λ s. s) search_42 prover.node (pos 1000) false 0) ≡ (
      record prover { last = (calculate_wating_time prover (pos 1000)).0.1 },
      submits (record { node = prover.node; nonce = to_bits (pos 42) }) true,
    )
unfolding generate_pow node_bytes
round-client_round_example =
    round-client_round web [] (λ s. s) search_42 prover (pos 1000) (pos 3) (pos 42) [] [] rnd_bytes
      [] [] 0 1 2 3 (refl, refl) refl (omega arith) (refl, refl) refl rnd_IsBytes refl refl refl
      (refl, refl)

-- Connections are numbers that are never used again.
abbrev grpc : Grpc
grpc = record {
  State = ℕ;
  dial = λ url n. (ok n, suc n);
  close = λ conn n. (ok tt, n);
  greet = λ conn to input msg_type opts n. (ok input, n);
  process = λ conn to address apikey req n. (ok req, n);
}

abbrev start_session : Session grpc
start_session = record { cp = new_computing_processor; net = 0 }

abbrev open_session : Session grpc
unfolding new_client
open_session = (new_client grpc [] start_session).1

Reachable-Paired_example : Paired grpc open_session
unfolding open_session
Reachable-Paired_example = Reachable-Paired grpc open_session (dialled [] (fresh 0))

-- A signer with one signature and one key, and hex as it is.
abbrev pub hexed : Crypto
hexed = record toy {
  sig_to_pub = λ digest sig. ok (1 ∷ []);
  pubkey_to_address = λ key. 1 ∷ 2 ∷ [];
  hex_decode = λ s. hex_decode (drop 2 s);
  crypto_sign = λ digest key. ok (5 ∷ 28 ∷ []);
}

pub hexed_laws : HexLaws hexed
hexed_laws = record {
  hex_law = λ s h. hex_decode-hex_encode s h;
  sign-IsBytes =
      λ digest key sig h. subst IsBytes (ok-injective h) (omega arith, (omega arith, tt));
  address-IsBytes = λ key. (omega arith, (omega arith, tt));
}

-- The address 0x0102, the signature 0x051c and the time 1000.
abbrev pub printed : AuthInfo
printed = record {
  address = b'0' ∷ b'x' ∷ b'0' ∷ b'1' ∷ b'0' ∷ b'2' ∷ [];
  sig = b'0' ∷ b'x' ∷ b'0' ∷ b'5' ∷ b'1' ∷ b'c' ∷ [];
  msg = b'1' ∷ b'0' ∷ b'0' ∷ b'0' ∷ [];
}

sign_cmd-check_auth_info_example : check_auth_info hexed (pos 60) (pos 1030) printed ≡ ok true
unfolding sign_cmd hex_encode text sign sig_to_address format_uint wrap64 to_bits ◌+ℤ◌
sign_cmd-check_auth_info_example =
    sign_cmd-check_auth_info hexed hexed_laws 1000 [] (pos 60) (pos 1030) printed (omega arith) refl
      (omega arith)
