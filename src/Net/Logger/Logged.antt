-- ===== src/Net/Logger/Logged.antt =====
-- What `Log_simple` of net/loggerOld.cpp writes after the configuration has been read.
use lobbysvr.Base.{
  ℕ, suc, ◌≤◌, ◌≡◌, refl, ap, ap₂, ◌∙◌, Bool, true, false, List, [], ◌∷◌, ◌++◌, Option, some, ◌&&◌,
  if◌then◌else◌, le→leb, le→ltb,
}
use lobbysvr.Net.Console.Text.{same_text_refl}
use lobbysvr.Net.Logger.Sinks.{
  LogConfig, SetNode, SinkKind, console, debugger, text_file, Sink, Build, read_config, init, takes,
  taking, log_simple,
}
use lobbysvr.Net.Logger.Resets.{fresh_sinks, owner, AreBelow, kinds_of, configured, init-owner}

-- What a sink takes of those that a configuration made.
taking-append :
    (level : ℕ) (channel : List ℕ) (xs ys : List Sink)
    → taking true level channel (xs ++ ys)
      ≡ taking true level channel xs ++ taking true level channel ys
unfolding taking
taking-append level channel [] ys = refl
taking-append level channel (x ∷ xs) ys =
    each (takes true level channel x) (taking-append level channel xs ys)
  where
    each :
        (b : Bool)
        → taking true level channel (xs ++ ys)
          ≡ taking true level channel xs ++ taking true level channel ys
        → (if b
            then x ∷ taking true level channel (xs ++ ys)
            else taking true level channel (xs ++ ys))
          ≡ (if b then x ∷ taking true level channel xs else taking true level channel xs)
            ++ taking true level channel ys
    each true e = ap (◌∷◌ x) e
    each false e = e

takes-fresh :
    (level n : ℕ) (c : LogConfig) (kind : SinkKind)
    → c.level ≤ level
    → takes true level c.channel
        (record { address = n; kind = kind; level = c.level; channel = c.channel })
      ≡ true
unfolding takes
takes-fresh level n c console h =
    ap₂ (λ a b. (a && b) && true) (le→leb c.level level h) (same_text_refl c.channel)
takes-fresh level n c debugger h =
    ap₂ (λ a b. (a && b) && true) (le→leb c.level level h) (same_text_refl c.channel)
takes-fresh level n c (text_file name size minutes) h =
    ap₂ (λ a b. (a && b) && true) (le→leb c.level level h) (same_text_refl c.channel)

taking-fresh :
    (level n : ℕ) (c : LogConfig) (kinds : List SinkKind)
    → c.level ≤ level
    → taking true level c.channel (fresh_sinks n c kinds) ≡ fresh_sinks n c kinds
unfolding taking
taking-fresh level n c [] h = refl
taking-fresh level n c (kind ∷ kinds) h =
    let sink : Sink = record { address = n; kind = kind; level = c.level; channel = c.channel } in
    let rest = taking true level c.channel (fresh_sinks (suc n) c kinds) in
    ap (λ b. if b then sink ∷ rest else rest) (takes-fresh level n c kind h)
    ∙ ap (◌∷◌ sink) (taking-fresh level (suc n) c kinds h)

log_simple-owner :
    (others : List Sink) (level n : ℕ) (c : LogConfig) (kinds : List SinkKind)
    → c.level ≤ level
    → log_simple true level (owner others n c c kinds)
      ≡ taking true level c.channel others ++ fresh_sinks n c kinds
unfolding log_simple
log_simple-owner others level n c kinds h =
    ap (λ b. if b then [] else taking true level c.channel (others ++ fresh_sinks n c kinds))
      (le→ltb level c.level h)
    ∙ taking-append level c.channel others (fresh_sinks n c kinds)
    ∙ ap (λ xs. taking true level c.channel others ++ xs) (taking-fresh level n c kinds h)

-- Nodes `set` that are read one after the other leave, behind the sinks of others, those of the last alone: a text
-- that is logged by `Log_simple` at the last one's level or above, while a debugger is there, goes to each sink that the
-- last node asks for, once, and besides to those of others that take its level and channel.
pub init-log_simple :
    (others : List Sink) (build : Build) (nodes : List (Option SetNode)) (pt : SetNode) (n : ℕ)
    (config c : LogConfig) (kinds : List SinkKind)
    → AreBelow n others
    → (m : ℕ) × ((level : ℕ)
        → (read_config build pt (configured build nodes config)).level ≤ level
        → log_simple true level (init build (nodes ++ some pt ∷ []) (owner others n config c kinds))
          ≡ taking true level (read_config build pt (configured build nodes config)).channel others
            ++ fresh_sinks m
                (read_config build pt (configured build nodes config))
                (kinds_of build (read_config build pt (configured build nodes config))))
init-log_simple others build nodes pt n config c kinds h =
    let (m, e) = init-owner others build nodes pt n config c kinds h in
    (m, λ level b. ap (log_simple true level) e ∙ log_simple-owner others level m _ _ b)
