-- ===== src/Examples/Keys.antt =====
-- Keys in files, and the commands that work on them.
use computing_api.Base.{
  List, Str, [], arith, false, none, ok, refl, some, str_eq, text, true, ◌∷◌, ◌≡◌,
}
use computing_api.Prover.{GridProver, new_grid_prover}
use computing_api.Cmd.Daemon.Laws.{IsChain, run_cmd_lem}
use computing_api.Cmd.Daemon.{
  Contracts, Daemon, Outside, closed_again, gateway_of, not_opened, run_cmd, save_addresses,
}
use computing_api.Std.Hex.{hex_decode, hex_encode}
use computing_api.Keystore.Passphrase.{decrypt_key, encrypt_key}
use computing_api.Keystore.Store.{
  KeyInfo, address_of, get, import_key, join_path, new_key_store, put, sk_of, write_key_file,
  write_temporary_key_file,
}
use computing_api.Keystore.Store.Laws.{get-put}
use computing_api.Keystore.Vault.{Call, Holds, Runs-Holds, done, puts, replay, step}
use computing_api.Examples.Memory.{Disk, disk, disk_dir, disk_laws, held}
use computing_api.Examples.Sealed.{
  codec, codec_laws, get_field, get_int, get_value, put_field, put_int, put_value,
}
use computing_api.Base.Int.{pos}
use computing_api.Config.{GatewayConfig, Toml, write_conf}
use computing_api.Cmd.Wallet.{Home, import_cmd, save_wallet, store_key}
use computing_api.Cmd.Wallet.Laws.{import_cmd_over}
use computing_api.Keystore.Files.{IsName}

abbrev dir : Str
dir = b'k' ∷ []

abbrev name_a : Str
name_a = b'a' ∷ []

abbrev info : KeyInfo
info = record { type = 1; secret_key = 7 ∷ 9 ∷ [] }

abbrev info_later : KeyInfo
info_later = record { type = 1; secret_key = 8 ∷ [] }

abbrev password : Str
password = b'p' ∷ []

-- The disk after a key was put on an empty one, and after another was put under the same name.
abbrev stored : Disk
unfolding put encrypt_key write_temporary_key_file write_key_file join_path hex_encode
stored = (put disk codec dir (1 ∷ []) (2 ∷ []) name_a password info []).1

put_first : put disk codec dir (1 ∷ []) (2 ∷ []) name_a password info [] ≡ (ok tt, stored)
unfolding put encrypt_key write_temporary_key_file write_key_file join_path hex_encode
put_first = refl

put_second : put disk codec dir (3 ∷ []) (4 ∷ []) name_a [] info_later stored ≡ (ok tt, stored)
unfolding put encrypt_key write_temporary_key_file write_key_file join_path hex_encode text
put_second = refl

name_a-IsName : IsName name_a
name_a-IsName = record {
  ascii = (omega arith, tt);
  no_slash = (λ e. absurd (omega arith), tt);
  not_empty = λ e. cc;
  not_here = λ e. cc;
  not_parent = λ e. cc;
}

get-put_example :
    (get disk codec dir name_a password stored ≡ ok info)
    × ((j : Str)
        → (disk_dir dir).IsEntry j
        → str_eq (join_path disk dir name_a) j ≡ false
        → (disk_dir dir).entry stored j ≡ (disk_dir dir).entry [] j)
unfolding join_path
get-put_example =
    get-put disk dir (disk_dir dir) codec codec_laws (1 ∷ []) (2 ∷ []) name_a password info []
      stored name_a-IsName (omega arith, tt) (omega arith, tt) refl put_first

nothing_held : Holds disk dir (disk_dir dir) codec codec_laws (λ n. none) []
nothing_held = record { absent = λ n named e. refl; present = λ n auth ki named e. absurd (cc) }

-- The second key under the name is not stored.
abbrev calls : List Call
calls =
    puts (1 ∷ []) (2 ∷ []) name_a password info ∷ puts (3 ∷ []) (4 ∷ []) name_a [] info_later ∷ []

Runs-Holds_example :
    Holds disk dir (disk_dir dir) codec codec_laws (replay calls (λ n. none)) stored
Runs-Holds_example =
    Runs-Holds disk dir (disk_dir dir) codec codec_laws {cs = calls}
      (step (name_a-IsName, (omega arith, tt), (omega arith, tt)) put_first
        (step (name_a-IsName, (omega arith, tt), (omega arith, tt)) put_second done))
      nothing_held

-- A configuration file that holds what was written last, with all required fields.
abbrev pub settings : GatewayConfig
settings = record {
  grpc_listen = [];
  http_listen = b':' ∷ b'8' ∷ [];
  hs_key = [];
  cookie_expire = pos 60;
  db_path = [];
  sign_expire = pos 60;
  key_store = [];
  wallet = name_a;
  validator_url = b'v' ∷ [];
}

abbrev pub toml : Toml
toml = record {
  State = GatewayConfig;
  decode_file = λ s. ok (record { config = s; is_defined = λ v. true });
  open_truncated = λ s. (ok tt, settings);
  encode = λ c s. (ok tt, c);
}

abbrev home : Home disk toml
home = record { files = stored; conf = record settings { wallet = [] }; saved = settings }

abbrev home_after : Home disk toml
home_after = record { files = stored; conf = settings; saved = settings }

-- The key of the second import belongs to the address that has a file.
import_cmd_over_example :
    (home_after.conf.wallet ≡ name_a) × ((j : Str) → held home_after.files j ≡ held home.files j)
unfolding import_cmd store_key save_wallet new_key_store write_conf import_key hex_decode put
    encrypt_key join_path hex_encode text address_of
import_cmd_over_example =
    import_cmd_over disk disk_laws toml codec codec_laws (λ s. name_a) dir (3 ∷ []) (4 ∷ [])
      (b'0' ∷ b'8' ∷ []) (b'q' ∷ []) info_later home home_after refl (λ e. absurd (cc)) refl

abbrev contracts : Contracts
contracts = record { market = 1 ∷ []; access = 2 ∷ []; credit = 3 ∷ []; registry = 4 ∷ [] }

abbrev outside : Outside
outside = record {
  ganache = 1 ∷ [];
  sepolia = 2 ∷ [];
  dev_chain = 3 ∷ [];
  load_local = contracts;
  load_sepo = record contracts { market = 5 ∷ [] };
  load_dev = record contracts { market = 6 ∷ [] };
  hex_to_address = λ s. s;
  address_of_key = λ sk. ok name_a;
  check_version = false;
  open_database = λ db_path. ok tt;
  listen = λ address. ok tt;
  shutdown = ok tt;
}

abbrev fresh : Daemon
fresh = record {
  password = [];
  cp = [];
  sk = [];
  prover = none;
  addresses = none;
  database = not_opened;
  server = none;
}

abbrev started : Daemon
started = record {
  password = password;
  cp = name_a;
  sk = b'0' ∷ b'7' ∷ b'0' ∷ b'9' ∷ [];
  prover = some (record {
    node = record { address = name_a; id = 1 };
    last = pos 0;
    prepare_interval = 10;
    prover_interval = 10;
    wait_interval = 100;
    diffcult = 10;
    doned = false;
    validator_url = b'v' ∷ [];
  });
  addresses = some contracts;
  database = closed_again;
  server = some (settings.http_listen, gateway_of settings (1 ∷ []) false);
}

run_cmd_lem_example :
    (ki : KeyInfo) × (p : GridProver) × (e : Str) × (l : Contracts) × (get disk codec dir name_a
        password stored
      ≡ ok ki)
    × (started.sk ≡ sk_of ki)
    × (started.cp ≡ name_a)
    × (started.password ≡ password)
    × (started.prover ≡ some p)
    × (outside.address_of_key (sk_of ki) ≡ ok p.node.address)
    × (p.validator_url ≡ settings.validator_url)
    × IsChain outside (text "local") e l
    × (started.addresses ≡ some (save_addresses outside l))
    × (started.server ≡ some (settings.http_listen, gateway_of settings e false))
    × (started.database ≡ closed_again)
unfolding run_cmd get decrypt_key put encrypt_key write_temporary_key_file write_key_file join_path
    hex_encode hex_decode text new_grid_prover stored get_field put_field get_int put_int get_value
    put_value
run_cmd_lem_example =
    run_cmd_lem outside disk codec dir stored settings false (text "local") password fresh started
      refl
