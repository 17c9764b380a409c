-- ===== src/Tests/Config.antt =====
-- Settings that are read from an environment.
use portal_backend.Prelude.{pos, true, [], some, refl, if◌then◌else◌}
use portal_backend.Text
use portal_backend.Text.{codes, text_eq}
use portal_backend.Config
use portal_backend.Config.{Os, RateLimitConfig}
use portal_backend.Config.Bounds.{Usable, load_rate_limit_config-Usable}

-- an environment in which only the limiter is turned on
abbrev os : Os
os = record {
  get_env = λ key. if text_eq key (codes "RATE_LIMIT_ENABLED") then codes "true" else [];
  parse_bool = λ t. some true;
  atoi = λ t. some (pos 1);
  parse_duration = λ t. some (pos 1);
  is_float = λ t. true;
}

abbrev settings : RateLimitConfig
settings = record {
  enabled = true;
  prefix = codes "portal:rl";
  default_limit = pos 300;
  default_burst = pos 300;
  default_period = pos 60000000000;
  fail_open = true;
}

load_rate_limit_config-Usable_example : Usable settings
unfolding Config.load_rate_limit_config Config.validate Config.get_env_bool Config.get_env_int
    Config.get_env_duration Config.get_env_default Config.◌>>=◌ Text.trim_space Text.trim_left
    Text.trim_right Text.is_space
load_rate_limit_config-Usable_example = load_rate_limit_config-Usable os settings refl refl
