-- ===== src/Llm/Specs.antt =====
-- app/services/llm/specs.py: the table of OpenAI-compatible providers.
pub mod Rows
use web_search_api.Prelude.{
  String, Bool, true, false, Option, none, some, List, [], ◌∷◌, ◌++◌, str_eq, if◌then◌else◌,
}

pub data AuthStyle : Type 0 where
  bearer header query no_auth : AuthStyle

pub data ProviderKind : Type 0 where
  frontier aggregator inference local : ProviderKind

pub record ProviderSpec : Type 0 where
  pub key : String
  pub label : String
  pub base_url : String
  pub kind : ProviderKind
  pub auth : AuthStyle
  pub auth_header : Option String
  pub models_path : String
  pub chat_path : String
  pub static_models : List String
  pub docs_url : String

abbrev pub requires_key : ProviderSpec → Bool
requires_key s = elim s.auth [ no_auth ↦ false | _ ↦ true ]

pub default_header : ProviderSpec → String
default_header s = elim s.auth [
  | header ↦ elim s.auth_header [
    | none ↦ "Authorization"
    | some name ↦ if str_eq name "" then "Authorization" else name
  ]
  | _ ↦ "Authorization"
]

pub default_template : ProviderSpec → String
default_template s = elim s.auth [ bearer ↦ "Bearer {value}" | _ ↦ "{value}" ]

-- `_spec`: a row, with the defaults that every row keeps.
abbrev spec :
    String → String → String → ProviderKind → AuthStyle → List String → String → ProviderSpec
spec key label base_url kind auth static_models docs_url = record {
  key = key;
  label = label;
  base_url = base_url;
  kind = kind;
  auth = auth;
  auth_header = none;
  models_path = "/models";
  chat_path = "/chat/completions";
  static_models = static_models;
  docs_url = docs_url;
}

abbrev frontier_specs : List ProviderSpec
frontier_specs =
    spec "openai" "OpenAI" "https://api.openai.com/v1" frontier bearer [] ""
    ∷ spec "gemini" "Google Gemini" "https://generativelanguage.googleapis.com/v1beta/openai"
        frontier bearer [] "https://ai.google.dev/gemini-api/docs/openai"
    ∷ spec "mistral" "Mistral" "https://api.mistral.ai/v1" frontier bearer [] ""
    ∷ spec "deepseek" "DeepSeek" "https://api.deepseek.com" frontier bearer [] ""
    ∷ spec "xai" "xAI Grok" "https://api.x.ai/v1" frontier bearer [] ""
    ∷ spec "cohere" "Cohere" "https://api.cohere.ai/compatibility/v1" frontier bearer [] ""
    ∷ spec "moonshot" "Moonshot Kimi" "https://api.moonshot.ai/v1" frontier bearer [] ""
    ∷ spec "zai" "Z.AI GLM" "https://api.z.ai/api/paas/v4" frontier bearer [] ""
    ∷ spec "dashscope" "Alibaba DashScope (Qwen)"
        "https://dashscope-intl.aliyuncs.com/compatible-mode/v1" frontier bearer [] ""
    ∷ spec "meta_llama" "Meta Llama API" "https://api.llama.com/compat/v1" frontier bearer [] ""
    ∷ spec "ai21" "AI21 Labs" "https://api.ai21.com/studio/v1" frontier bearer [] ""
    ∷ []

abbrev inference_specs : List ProviderSpec
inference_specs =
    spec "groq" "Groq" "https://api.groq.com/openai/v1" inference bearer [] ""
    ∷ spec "cerebras" "Cerebras" "https://api.cerebras.ai/v1" inference bearer [] ""
    ∷ spec "together" "Together AI" "https://api.together.xyz/v1" inference bearer [] ""
    ∷ spec "fireworks" "Fireworks AI" "https://api.fireworks.ai/inference/v1" inference bearer [] ""
    ∷ spec "sambanova" "SambaNova" "https://api.sambanova.ai/v1" inference bearer [] ""
    ∷ spec "deepinfra" "DeepInfra" "https://api.deepinfra.com/v1/openai" inference bearer [] ""
    ∷ spec "hyperbolic" "Hyperbolic" "https://api.hyperbolic.xyz/v1" inference bearer [] ""
    ∷ spec "nebius" "Nebius AI Studio" "https://api.studio.nebius.ai/v1" inference bearer [] ""
    ∷ spec "novita" "Novita AI" "https://api.novita.ai/openai" inference bearer [] ""
    ∷ spec "baseten" "Baseten" "https://inference.baseten.co/v1" inference bearer [] ""
    ∷ spec "lambda_ai" "Lambda" "https://api.lambda.ai/v1" inference bearer [] ""
    ∷ spec "featherless" "Featherless AI" "https://api.featherless.ai/v1" inference bearer [] ""
    ∷ spec "nscale" "Nscale" "https://inference.api.nscale.com/v1" inference bearer [] ""
    ∷ spec "friendli" "FriendliAI" "https://api.friendli.ai/serverless/v1" inference bearer [] ""
    ∷ spec "nvidia" "NVIDIA NIM" "https://integrate.api.nvidia.com/v1" inference bearer [] ""
    ∷ spec "anyscale" "Anyscale" "https://api.endpoints.anyscale.com/v1" inference bearer [] ""
    ∷ spec "chutes" "Chutes" "https://llm.chutes.ai/v1" inference bearer [] ""
    ∷ spec "modelscope" "ModelScope" "https://api-inference.modelscope.cn/v1" inference bearer [] ""
    ∷ spec "inception" "Inception Labs" "https://api.inceptionlabs.ai/v1" inference bearer [] ""
    ∷ spec "wandb" "W&B Inference" "https://api.inference.wandb.ai/v1" inference bearer [] ""
    ∷ spec "clarifai" "Clarifai" "https://api.clarifai.com/v2/ext/openai/v1" inference bearer [] ""
    ∷ spec "publicai" "PublicAI" "https://api.publicai.co/v1" inference bearer [] ""
    ∷ spec "galadriel" "Galadriel" "https://api.galadriel.ai/v1" inference bearer [] ""
    ∷ []

abbrev aggregator_specs : List ProviderSpec
aggregator_specs =
    spec "openrouter" "OpenRouter" "https://openrouter.ai/api/v1" aggregator bearer []
      "https://openrouter.ai/docs/quickstart"
    ∷ spec "perplexity" "Perplexity" "https://api.perplexity.ai" aggregator bearer
        ("sonar" ∷ "sonar-pro" ∷ "sonar-reasoning" ∷ "sonar-reasoning-pro" ∷ []) ""
    ∷ spec "vercel_gateway" "Vercel AI Gateway" "https://ai-gateway.vercel.sh/v1" aggregator bearer
        [] ""
    ∷ spec "helicone" "Helicone Gateway" "https://ai-gateway.helicone.ai" aggregator bearer [] ""
    ∷ spec "github_models" "GitHub Models" "https://models.github.ai/inference" aggregator bearer []
        ""
    ∷ spec "poe" "Poe" "https://api.poe.com/v1" aggregator bearer [] ""
    ∷ spec "nano_gpt" "Nano-GPT" "https://nano-gpt.com/api/v1" aggregator bearer [] ""
    ∷ spec "v0" "Vercel v0" "https://api.v0.dev/v1" aggregator bearer [] ""
    ∷ spec "morph" "Morph" "https://api.morphllm.com/v1" aggregator bearer [] ""
    ∷ []

abbrev local_specs : List ProviderSpec
local_specs =
    spec "lmstudio" "LM Studio" "http://localhost:1234/v1" local no_auth [] ""
    ∷ spec "vllm" "vLLM" "http://localhost:8006/v1" local no_auth [] ""
    ∷ spec "llamacpp" "llama.cpp / llamafile" "http://localhost:8080/v1" local no_auth [] ""
    ∷ spec "localai" "LocalAI" "http://localhost:8080/v1" local no_auth [] ""
    ∷ spec "xinference" "Xinference" "http://localhost:9997/v1" local no_auth [] ""
    ∷ spec "jan" "Jan" "http://localhost:1337/v1" local no_auth [] ""
    ∷ spec "textgen_webui" "text-generation-webui" "http://localhost:5000/v1" local no_auth [] ""
    ∷ spec "koboldcpp" "KoboldCpp" "http://localhost:5001/v1" local no_auth [] ""
    ∷ spec "docker_model_runner" "Docker Model Runner" "http://localhost:12434/engines/v1" local
        no_auth [] ""
    ∷ []

abbrev pub openai_compatible_specs : List ProviderSpec
openai_compatible_specs = frontier_specs ++ (inference_specs ++ (aggregator_specs ++ local_specs))
