-- ===== src/Main/Program.antt =====
-- `main` of driver/src/main.c around its loop: the argument, the settings, the producer and the end.
use fanuc_driver.CString.{Bytes, codes, zeroed}
use fanuc_driver.Config.{Sources, Settings, ConfigRet, read_config}
use fanuc_driver.Prelude.{
  Bool, none, List, [], ◌∷◌, ◌++◌, if◌then◌else◌, pos, fail, pure, returns, fails, hangs, faults, ℕ,
  ◌*◌, ltb_ℤ, ◌>>=◌, ◌>>◌, modify, Outcome, true, false, not,
}
use fanuc_driver.Process.{
  Run, usage, config_failed, notice, or_notice, Outside, conf_set_failed, producer_failed, flushing,
  not_delivered, Process, world_of, in_world, at_exit, Notice,
}
use fanuc_driver.Env.{Env}
use fanuc_driver.Main.{serve, run_driver}

-- char DEFAULT_CONFIG[]
abbrev pub default_config : Bytes
default_config = codes "default.cfg"

-- char *brokers
abbrev pub brokers : Bytes
brokers = codes "localhost:9092"

-- The variables that `read_config` sets, as they are initialised.
abbrev pub initial_settings : {D : Type 0} → Settings D
initial_settings = record {
  device_ip = codes "127.0.0.1" ++ zeroed 1015;
  device_port = pos 8193;
  device_host = none;
  minimum_interval = none;
}

module _ {W D : Type 0} where
  -- The name of the file: `args` are the arguments without the program's name.
  unfoldable pub config_argument : List Bytes → Run W D Bytes
  config_argument [] = pure default_config
  config_argument (cfg_file ∷ []) = pure cfg_file
  config_argument (_ ∷ _ ∷ _) = or_notice usage fail

  -- if (read_config(...)): a failure is reported, and the program goes on. `garbage` is the truth of
  -- the value that read_config returns unassigned.
  abbrev pub configured : Bool → Outcome (ConfigRet × Settings D) → Run W D (Settings D)
  configured garbage (returns (ConfigRet.one, c)) p = (returns c, notice config_failed p)
  configured garbage (returns (ConfigRet.unassigned, c)) p =
      (returns c, if garbage then notice config_failed p else p)
  configured garbage fails p = (fails, p)
  configured garbage hangs p = (hangs, p)
  configured garbage faults p = (faults, p)

  unfoldable pub configure : Bool → Sources D → Run W D (Settings D)
  unfolding read_config
  configure garbage src = configured garbage (read_config src initial_settings)

module _ {W D : Type 0} where
  -- if (!ok) { fprintf(stderr, ...); exit(EXIT_FAILURE); }
  abbrev pub checked :
      Bool
      → Notice
      → Process W D
      → Outcome (Unit {0}) × Process W D
      → Outcome (Unit {0}) × Process W D
  checked true n p rest = rest
  checked false n p rest = (fails, notice n p)

module _ {W D : Type 0} (out : Outside W D) where
  -- The producer's settings, and the producer.
  unfoldable pub create_producer : Run W D (Unit {0})
  create_producer p =
      let (refused, w) = out.conf_set (codes "bootstrap.servers") brokers (world_of p) in
      let (made, w') = out.producer_new w in
      checked (not refused) conf_set_failed (in_world (λ _. w) p)
        (checked made producer_failed (in_world (λ _. w') p) (returns tt, in_world (λ _. w') p))

  -- if (rd_kafka_outq_len(rk) > 0)
  abbrev pub count_undelivered : Process W D → Process W D
  count_undelivered p =
      let n = out.outq_len (world_of p) in
      record p { log = if ltb_ℤ (pos 0) n then not_delivered n ∷ p.log else p.log }

  -- Behind the loop: the flush, for ten seconds at most.
  unfoldable pub shut_down : Process W D → Process W D
  shut_down p =
      let p1 = record p { driver = record p.driver { updates = [] } } in
      in_world out.destroy (count_undelivered (serve (out.flush (10 * 1000)) (notice flushing p1)))

module _ {W D : Type 0} (env : Env W D) (out : Outside W D) where
  -- `sources` is what the environment and libconfig answer for a file. A process that ends calls the
  -- function that it has registered.
  unfoldable pub main_body : ℕ → ℕ → Bool → (Bytes → Sources D) → List Bytes → Run W D (Unit {0})
  unfolding config_argument configure create_producer run_driver shut_down
  main_body fuel rounds garbage sources args = do
    cfg_file ← config_argument args
    c ← configure garbage (sources cfg_file)
    create_producer out
    run_driver env out fuel rounds c.device_ip c.device_port
    modify (shut_down out)

  unfoldable pub main : ℕ → ℕ → Bool → (Bytes → Sources D) → List Bytes → Run W D (Unit {0})
  unfolding main_body at_exit
  main fuel rounds garbage sources args p =
      at_exit env (main_body fuel rounds garbage sources args p)
