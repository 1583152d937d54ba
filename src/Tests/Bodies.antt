-- ===== src/Tests/Bodies.antt =====
-- Compressed responses, and the events of a server's life.
use korvex.Prelude.{ℕ, ◌+◌, ◌≤◌, ◌<◌, true, false, [], ◌∷◌, Option, none, some, ◌≡◌, ◌⊎◌, refl}
use korvex.Prelude.Lists.{All}
use korvex.Prelude.Text.{Text, codes}
use korvex.Request.{Request}
use korvex.Response.{Response, make}
use korvex.Compression.{Encoder, Options, quality_of, pick}
use korvex.Compression.Choice.{accepts, pick-best}
use korvex.Lifespan.{startup, shutdown, failed, Hook, Hooks, lifespan}
use korvex.Lifespan.Events.{lifespan-failed}
use korvex.Lifespan.{run_hooks}

abbrev gzip : Encoder ℕ
gzip = record {
  name = codes "gzip";
  whole = λ body. body;
  start = 0;
  piece = λ chunk s. (chunk, s + 1);
  finish = λ s. s ∷ [];
}

abbrev whole_number : Text → Option ℕ
whole_number s = some 500

abbrev asked : Request
asked = record {
  method = codes "GET";
  path = codes "/";
  headers = record { items = (codes "accept-encoding", codes "gzip;q=0.5") ∷ [] };
  path_params = [];
  client = none;
  scheme = codes "http";
}

abbrev IsGzip : Encoder ℕ → Type 0
IsGzip e = e.name ≡ codes "gzip"

pick-best_example :
    ((pick whole_number (gzip ∷ []) asked ≡ none)
      × All (λ d. quality_of (accepts whole_number asked) d.name ≤ 0) (gzip ∷ []))
    ⊎ ((e : Encoder ℕ) × (pick whole_number (gzip ∷ []) asked ≡ some e)
        × IsGzip e
        × (0 < quality_of (accepts whole_number asked) e.name)
        × All
            (λ d.
              quality_of (accepts whole_number asked) d.name
              ≤ quality_of (accepts whole_number asked) e.name)
            (gzip ∷ []))
pick-best_example = pick-best IsGzip whole_number (gzip ∷ []) asked (refl, tt)

abbrev offered : Options ℕ
offered = record {
  available = gzip ∷ [];
  minimum_size = 1;
  prefixes = codes "text/" ∷ [];
  suffixes = [];
}

abbrev page : Response
page = make (b'x' ∷ b'y' ∷ []) 200 ((codes "Content-Type", codes "text/html") ∷ [])

abbrev opens : Hook ℕ
opens w = (true, w + 1)

abbrev breaks : Hook ℕ
breaks w = (false, w)

abbrev hooks : Hooks ℕ
hooks = record { on_startup = opens ∷ breaks ∷ opens ∷ []; on_shutdown = opens ∷ [] }

lifespan-failed_example : lifespan hooks (startup ∷ shutdown ∷ []) 0 ≡ (failed startup ∷ [], 1)
unfolding run_hooks
lifespan-failed_example =
    lifespan-failed hooks (opens ∷ []) (opens ∷ []) breaks (shutdown ∷ []) 0 1 1 refl refl refl
