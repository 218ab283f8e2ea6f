-- ===== src/Net/Logger/Resets.antt =====
-- The sinks that are left when net/loggerOld.cpp has read its configuration, and what they take.
use lobbysvr.Base.{
  ℕ, suc, ◌+◌, ◌≤◌, ◌<◌, ◌≡◌, refl, sym, ap, ◌∙◌, Bool, true, false, List, [], ◌∷◌, ◌++◌, Option,
  none, some, arith, ◌&&◌, ◌==◌, if◌then◌else◌, length, append_assoc, append-nil, length-append,
  ==_refl, ne→==,
}
use lobbysvr.Net.Logger.Sinks.{
  LogConfig, SetNode, SinkKind, console, debugger, Sink, Logger, Build, remove_sink, remove_sinks,
  remove_all_sinks, add_sink, add_if, file_kind, init_boost_log, read_config, reset_config, init,
}

-- Sinks with addresses from `n` on that a logger of this configuration adds.
abbrev pub fresh_sinks : ℕ → LogConfig → List SinkKind → List Sink
fresh_sinks n c [] = []
fresh_sinks n c (kind ∷ kinds) =
    (record { address = n; kind = kind; level = c.level; channel = c.channel })
    ∷ fresh_sinks (suc n) c kinds

abbrev pub addresses : ℕ → List SinkKind → List ℕ
addresses n [] = []
addresses n (kind ∷ kinds) = n ∷ addresses (suc n) kinds

-- A logger whose sinks, made by a configuration `c`, stand in the core behind those of others.
abbrev pub owner : List Sink → ℕ → (config c : LogConfig) → List SinkKind → Logger
owner others n config c kinds = record {
  config = config;
  sinks = addresses n kinds;
  core = others ++ fresh_sinks n c kinds;
  next = n + length kinds;
}

-- The others were added before.
abbrev pub AreBelow : ℕ → List Sink → Type 0
AreBelow n [] = Unit {0}
AreBelow n (sink ∷ sinks) = (sink.address < n) × AreBelow n sinks

-- The kinds of sinks that a configuration asks for.
abbrev pub used : Bool → SinkKind → List SinkKind
used true kind = kind ∷ []
used false kind = []

abbrev pub kinds_of : Build → LogConfig → List SinkKind
kinds_of build c =
    (used c.use_log_console console ++ used c.use_log_file (file_kind build c))
    ++ used (build.windows && c.use_log_trace) debugger

AreBelow-le : (n m : ℕ) (sinks : List Sink) → n ≤ m → AreBelow n sinks → AreBelow m sinks
AreBelow-le n m [] h b = tt
AreBelow-le n m (sink ∷ sinks) h (one, rest) = (omega arith, AreBelow-le n m sinks h rest)

remove_sink-append :
    (a : ℕ) (xs ys : List Sink) → remove_sink a (xs ++ ys) ≡ remove_sink a xs ++ remove_sink a ys
unfolding remove_sink
remove_sink-append a [] ys = refl
remove_sink-append a (x ∷ xs) ys = each (x.address == a) (remove_sink-append a xs ys)
  where
    each :
        (b : Bool)
        → remove_sink a (xs ++ ys) ≡ remove_sink a xs ++ remove_sink a ys
        → (if b then remove_sink a (xs ++ ys) else x ∷ remove_sink a (xs ++ ys))
          ≡ (if b then remove_sink a xs else x ∷ remove_sink a xs) ++ remove_sink a ys
    each true e = e
    each false e = ap (◌∷◌ x) e

remove_sink-below : (a : ℕ) (sinks : List Sink) → AreBelow a sinks → remove_sink a sinks ≡ sinks
unfolding remove_sink
remove_sink-below a [] h = refl
remove_sink-below a (sink ∷ sinks) (one, rest) =
    ap (λ b. if b then remove_sink a sinks else sink ∷ remove_sink a sinks)
      (ne→== sink.address a (λ e. omega arith))
    ∙ ap (◌∷◌ sink) (remove_sink-below a sinks rest)

remove_sink-fresh :
    (a n : ℕ) (c : LogConfig) (kinds : List SinkKind)
    → a < n
    → remove_sink a (fresh_sinks n c kinds) ≡ fresh_sinks n c kinds
unfolding remove_sink
remove_sink-fresh a n c [] h = refl
remove_sink-fresh a n c (kind ∷ kinds) h =
    let sink : Sink = record { address = n; kind = kind; level = c.level; channel = c.channel } in
    ap
      (λ b.
        if b
        then remove_sink a (fresh_sinks (suc n) c kinds)
        else sink ∷ remove_sink a (fresh_sinks (suc n) c kinds))
      (ne→== n a (λ e. omega arith))
    ∙ ap (◌∷◌ sink) (remove_sink-fresh a (suc n) c kinds (omega arith))

remove_sinks-own :
    (n : ℕ) (others : List Sink) (c : LogConfig) (kinds : List SinkKind)
    → AreBelow n others
    → remove_sinks (addresses n kinds) (others ++ fresh_sinks n c kinds) ≡ others
unfolding remove_sinks remove_sink
remove_sinks-own n others c [] h = append-nil others
remove_sinks-own n others c (kind ∷ kinds) h =
    let sink : Sink = record { address = n; kind = kind; level = c.level; channel = c.channel } in
    let later = fresh_sinks (suc n) c kinds in
    ap (remove_sinks (addresses (suc n) kinds)) (
      remove_sink-append n others (sink ∷ later)
      ∙ ap (λ xs. xs ++ remove_sink n (sink ∷ later)) (remove_sink-below n others h)
      ∙ ap (λ xs. others ++ xs)
          (ap (λ b. if b then remove_sink n later else sink ∷ remove_sink n later) (==_refl n)
            ∙ remove_sink-fresh n (suc n) c kinds (omega arith)))
    ∙ remove_sinks-own (suc n) others c kinds (AreBelow-le n (suc n) others (omega arith) h)

fresh_sinks-append :
    (n : ℕ) (c : LogConfig) (kinds : List SinkKind) (kind : SinkKind)
    → fresh_sinks n c (kinds ++ kind ∷ [])
      ≡ fresh_sinks n c kinds ++ fresh_sinks (n + length kinds) c (kind ∷ [])
fresh_sinks-append n c [] kind =
    let same : n ≡ n + 0 = omega arith in ap (λ m. fresh_sinks m c (kind ∷ [])) same
fresh_sinks-append n c (k ∷ kinds) kind =
    let shift : suc n + length kinds ≡ n + suc (length kinds) = omega arith in
    ap (◌∷◌ (record { address = n; kind = k; level = c.level; channel = c.channel })) (
      fresh_sinks-append (suc n) c kinds kind
      ∙ ap (λ m. fresh_sinks (suc n) c kinds ++ fresh_sinks m c (kind ∷ [])) shift)

addresses-append :
    (n : ℕ) (kinds : List SinkKind) (kind : SinkKind)
    → addresses n (kinds ++ kind ∷ []) ≡ addresses n kinds ++ (n + length kinds) ∷ []
addresses-append n [] kind = let same : n ≡ n + 0 = omega arith in ap (λ m. m ∷ []) same
addresses-append n (k ∷ kinds) kind =
    let shift : suc n + length kinds ≡ n + suc (length kinds) = omega arith in
    ap (◌∷◌ n)
      (addresses-append (suc n) kinds kind ∙ ap (λ m. addresses (suc n) kinds ++ m ∷ []) shift)

abbrev logger_of : LogConfig → List ℕ → List Sink → ℕ → Logger
logger_of c sinks core next = record { config = c; sinks = sinks; core = core; next = next }

-- Loggers that agree in what they hold.
same_logger :
    (c : LogConfig) {sinks sinks' : List ℕ} {core core' : List Sink} {next next' : ℕ}
    → sinks ≡ sinks'
    → core ≡ core'
    → next ≡ next'
    → logger_of c sinks core next ≡ logger_of c sinks' core' next'
same_logger c e f g i = logger_of c (e i) (f i) (g i)

-- The configuration after some nodes.
abbrev pub configured : Build → List (Option SetNode) → LogConfig → LogConfig
configured build [] config = config
configured build (none ∷ nodes) config = configured build nodes config
configured build (some pt ∷ nodes) config = configured build nodes (read_config build pt config)

module _ (others : List Sink) where
  remove_all_sinks-owner :
      (n : ℕ) (config c : LogConfig) (kinds : List SinkKind)
      → AreBelow n others
      → remove_all_sinks (owner others n config c kinds)
        ≡ owner others (n + length kinds) config config []
  unfolding remove_all_sinks
  remove_all_sinks-owner n config c kinds h =
      same_logger config refl (remove_sinks-own n others c kinds h ∙ sym (append-nil others))
        (omega arith)

  add_if-owner :
      (b : Bool) (kind : SinkKind) (n : ℕ) (c : LogConfig) (kinds : List SinkKind)
      → add_if b kind (owner others n c c kinds) ≡ owner others n c c (kinds ++ used b kind)
  unfolding add_if add_sink
  add_if-owner true kind n c kinds =
      same_logger c (sym (addresses-append n kinds kind))
        (append_assoc others (fresh_sinks n c kinds) (fresh_sinks (n + length kinds) c (kind ∷ []))
          ∙ ap (λ xs. others ++ xs) (sym (fresh_sinks-append n c kinds kind)))
        (let size = length-append kinds (kind ∷ []) in omega arith)
  add_if-owner false kind n c kinds = ap (owner others n c c) (sym (append-nil kinds))

  init_boost_log-owner :
      (build : Build) (n : ℕ) (config c : LogConfig) (kinds : List SinkKind)
      → AreBelow n others
      → init_boost_log build (owner others n config c kinds)
        ≡ owner others (n + length kinds) config config (kinds_of build config)
  unfolding init_boost_log
  init_boost_log-owner build n config c kinds h =
      let m = n + length kinds in
      let traced = config.use_log_trace in
      ap
        (λ s. add_if (build.windows && traced) debugger (
          add_if config.use_log_file (file_kind build config)
            (add_if config.use_log_console console s)))
        (remove_all_sinks-owner n config c kinds h)
      ∙ ap
          (λ s.
            add_if (build.windows && traced) debugger
              (add_if config.use_log_file (file_kind build config) s))
          (add_if-owner config.use_log_console console m config [])
      ∙ ap (add_if (build.windows && traced) debugger)
          (add_if-owner config.use_log_file (file_kind build config) m config _)
      ∙ add_if-owner (build.windows && traced) debugger m config _

  -- Whatever nodes come before it, the last one decides.
  pub init-owner :
      (build : Build) (nodes : List (Option SetNode)) (pt : SetNode) (n : ℕ) (config c : LogConfig)
      (kinds : List SinkKind)
      → AreBelow n others
      → (m : ℕ) × (init build (nodes ++ some pt ∷ []) (owner others n config c kinds)
          ≡ owner others m
              (read_config build pt (configured build nodes config))
              (read_config build pt (configured build nodes config))
              (kinds_of build (read_config build pt (configured build nodes config))))
  unfolding init reset_config
  init-owner build [] pt n config c kinds h =
      (n + length kinds, init_boost_log-owner build n (read_config build pt config) c kinds h)
  init-owner build (none ∷ nodes) pt n config c kinds h =
      init-owner build nodes pt n config c kinds h
  init-owner build (some node ∷ nodes) pt n config c kinds h =
      let read = read_config build node config in
      let (m, rest) =
        init-owner build nodes pt (n + length kinds) read read (kinds_of build read)
          (AreBelow-le n (n + length kinds) others (omega arith) h) in
      (
        m,
        ap (init build (nodes ++ some pt ∷ [])) (init_boost_log-owner build n read c kinds h)
            ∙ rest,
      )
