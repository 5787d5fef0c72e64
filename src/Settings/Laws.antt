-- ===== src/Settings/Laws.antt =====
-- Which environments the import of shared/config.py accepts, and what it reads from an empty one.
use outbox_fanout.Prelude.{String, ◌≡◌, ◌⊎◌, List, [], ◌∷◌}
use outbox_fanout.Prelude.Predicates.{All}
use outbox_fanout.Outcome.{ok, raise, config_error}
use outbox_fanout.Settings.Parsers.{Python, Environ}
use outbox_fanout.Settings.Decided.{
  Reads, IsInteger, IsBoolean, IsGiven, Decides, ok-Decides, map-Decides, bind-Decides,
  get_int-Decides, get_bool-Decides, require-Decides,
}
use outbox_fanout.Settings.{Settings, postgres, redis, aws, relaying, consuming, logging, load}

abbrev pub integer_names : List String
integer_names =
    "PG_PORT" ∷ "REDIS_PORT" ∷ "NOTIFY_DEDUP_TTL_SECONDS" ∷ "SQS_MAX_RECEIVE_COUNT"
    ∷ "RELAY_POLL_INTERVAL_SECONDS" ∷ "RELAY_BATCH_SIZE" ∷ "OUTBOX_MAX_ATTEMPTS"
    ∷ "SQS_WAIT_TIME_SECONDS" ∷ "SQS_MAX_MESSAGES" ∷ "SQS_VISIBILITY_TIMEOUT_SECONDS"
    ∷ "SQS_MESSAGE_RETENTION_SECONDS" ∷ "LOG_FILE_MAX_BYTES" ∷ "LOG_FILE_BACKUP_COUNT" ∷ []

abbrev pub boolean_names : List String
boolean_names =
    "SQL_ECHO" ∷ "CRASH_AFTER_MARK" ∷ "CRASH_AFTER_PUBLISH" ∷ "BREAK_OUTBOX_INSERT" ∷ "LOG_TO_FILE"
    ∷ []

module _ (py : Python) (env : Environ) where
  -- The password is given, and every number and every flag that is set to some text can be read.
  pub record IsUsable : Type 0 where
    pub password : IsGiven (env "PG_PASSWORD")
    pub integers : All (λ name. Reads (IsInteger py) (env name)) integer_names
    pub booleans : All (λ name. Reads (IsBoolean py) (env name)) boolean_names

  abbrev Number : String → Type 0
  Number name = Reads (IsInteger py) (env name)

  abbrev Flag : String → Type 0
  Flag name = Reads (IsBoolean py) (env name)

  postgres-Decides :
      Decides
        (Number "PG_PORT" × (IsGiven (env "PG_PASSWORD") × (Flag "SQL_ECHO" × Unit)))
        (postgres py env)
  unfolding postgres
  postgres-Decides = bind-Decides _ _ (get_int-Decides py env _ _) λ _.
      bind-Decides _ _ (require-Decides env _)
        λ _. bind-Decides _ _ (get_bool-Decides py env _ _) λ _. ok-Decides _

  redis-Decides :
      Decides
        (Number "REDIS_PORT"
          × (Number "NOTIFY_DEDUP_TTL_SECONDS" × (Flag "CRASH_AFTER_MARK" × Unit)))
        (redis py env)
  unfolding redis
  redis-Decides = bind-Decides _ _ (get_int-Decides py env _ _) λ _.
      bind-Decides _ _ (get_int-Decides py env _ _)
        λ _. bind-Decides _ _ (get_bool-Decides py env _ _) λ _. ok-Decides _

  aws-Decides : Decides (Number "SQS_MAX_RECEIVE_COUNT" × Unit) (aws py env)
  unfolding aws
  aws-Decides = bind-Decides _ _ (get_int-Decides py env _ _) λ _. ok-Decides _

  relaying-Decides :
      Decides
        (Number "RELAY_POLL_INTERVAL_SECONDS"
          × (Number "RELAY_BATCH_SIZE"
              × (Flag "CRASH_AFTER_PUBLISH"
                  × (Number "OUTBOX_MAX_ATTEMPTS" × (Flag "BREAK_OUTBOX_INSERT" × Unit)))))
        (relaying py env)
  unfolding relaying
  relaying-Decides = bind-Decides _ _ (get_int-Decides py env _ _) λ _.
      bind-Decides _ _ (get_int-Decides py env _ _) λ _.
        bind-Decides _ _ (get_bool-Decides py env _ _) λ _.
          bind-Decides _ _ (get_int-Decides py env _ _)
            λ _. bind-Decides _ _ (get_bool-Decides py env _ _) λ _. ok-Decides _

  consuming-Decides :
      Decides
        (Number "SQS_WAIT_TIME_SECONDS"
          × (Number "SQS_MAX_MESSAGES"
              × (Number "SQS_VISIBILITY_TIMEOUT_SECONDS"
                  × (Number "SQS_MESSAGE_RETENTION_SECONDS" × Unit))))
        (consuming py env)
  unfolding consuming
  consuming-Decides = bind-Decides _ _ (get_int-Decides py env _ _) λ _.
      bind-Decides _ _ (get_int-Decides py env _ _) λ _.
        bind-Decides _ _ (get_int-Decides py env _ _)
          λ _. bind-Decides _ _ (get_int-Decides py env _ _) λ _. ok-Decides _

  logging-Decides :
      Decides
        (Flag "LOG_TO_FILE"
          × (Number "LOG_FILE_MAX_BYTES" × (Number "LOG_FILE_BACKUP_COUNT" × Unit)))
        (logging py env)
  unfolding logging
  logging-Decides = bind-Decides _ _ (get_bool-Decides py env _ _) λ _.
      bind-Decides _ _ (get_int-Decides py env _ _)
        λ _. bind-Decides _ _ (get_int-Decides py env _ _) λ _. ok-Decides _

  -- The conditions of all parts, in the order of the file.
  abbrev InOrder : Type 0
  InOrder =
      (Number "PG_PORT" × (IsGiven (env "PG_PASSWORD") × (Flag "SQL_ECHO" × Unit)))
      × ((Number "REDIS_PORT"
            × (Number "NOTIFY_DEDUP_TTL_SECONDS" × (Flag "CRASH_AFTER_MARK" × Unit)))
          × ((Number "SQS_MAX_RECEIVE_COUNT" × Unit)
              × ((Number "RELAY_POLL_INTERVAL_SECONDS"
                    × (Number "RELAY_BATCH_SIZE"
                        × (Flag "CRASH_AFTER_PUBLISH"
                            × (Number "OUTBOX_MAX_ATTEMPTS"
                                × (Flag "BREAK_OUTBOX_INSERT" × Unit)))))
                  × ((Number "SQS_WAIT_TIME_SECONDS"
                        × (Number "SQS_MAX_MESSAGES"
                            × (Number "SQS_VISIBILITY_TIMEOUT_SECONDS"
                                × (Number "SQS_MESSAGE_RETENTION_SECONDS" × Unit))))
                      × ((Flag "LOG_TO_FILE"
                            × (Number "LOG_FILE_MAX_BYTES"
                                × (Number "LOG_FILE_BACKUP_COUNT" × Unit)))
                          × Unit)))))

  gather : InOrder → IsUsable
  gather
        (
          (pg, (pw, (echo, _))),
          (
            (rp, (ttl, (mark, _))),
            (
              (count, _),
              (
                (poll, (size, (crash, (most, (stop, _))))),
                ((wait, (n, (vis, (ret, _)))), ((file, (bytes, (backup, _))), _)),
              ),
            ),
          ),
        ) =
      record {
        password = pw;
        integers = (
          pg,
          (
            rp,
            (
              ttl,
              (count, (poll, (size, (most, (wait, (n, (vis, (ret, (bytes, (backup, tt)))))))))),
            ),
          ),
        );
        booleans = (echo, (mark, (crash, (stop, (file, tt)))));
      }

  spread : IsUsable → InOrder
  spread u =
      let (
        pg,
        (
          rp,
          (ttl, (count, (poll, (size, (most, (wait, (n, (vis, (ret, (bytes, (backup, _))))))))))),
        ),
      ) =
        u.integers in
      let (echo, (mark, (crash, (stop, (file, _))))) = u.booleans in
      (
        (pg, (u.password, (echo, tt))),
        (
          (rp, (ttl, (mark, tt))),
          (
            (count, tt),
            (
              (poll, (size, (crash, (most, (stop, tt))))),
              ((wait, (n, (vis, (ret, tt)))), ((file, (bytes, (backup, tt))), tt)),
            ),
          ),
        ),
      )

  -- Importing the settings succeeds exactly if PG_PASSWORD is set to a text that is not empty and each
  -- of the thirteen numbers and five flags is unset, empty or readable; everywhere else it raises a
  -- ConfigError.
  pub load-IsUsable :
      (IsUsable × (s : Settings) × (load py env ≡ ok s))
      ⊎ ((¬ IsUsable) × (load py env ≡ raise config_error))
  unfolding load
  load-IsUsable = map-Decides gather spread (
      bind-Decides _ _ postgres-Decides λ p. bind-Decides _ _ redis-Decides λ r.
        bind-Decides _ _ aws-Decides λ a. bind-Decides _ _ relaying-Decides λ y.
          bind-Decides _ _ consuming-Decides λ c. bind-Decides _ _ logging-Decides λ l.
            ok-Decides (record {
              postgres = p;
              redis = r;
              aws = a;
              relaying = y;
              consuming = c;
              logging = l;
            }))
