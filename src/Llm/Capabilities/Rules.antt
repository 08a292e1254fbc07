-- ===== src/Llm/Capabilities/Rules.antt =====
-- app/services/llm/capability_rules.py: the table, most specific rule first.
use web_search_api.Prelude.{true, false, some, List, [], ◌∷◌}
use web_search_api.Llm.Capabilities.{
  CapabilityRule, default_capabilities, adaptive_thinking, budget_tokens, effort, enable_thinking,
  max_completion_tokens, thinking_type,
}

abbrev claude_fable_mythos_5 : CapabilityRule
claude_fable_mythos_5 = record {
  pattern = "^claude-(fable|mythos)-5";
  description = "Claude Fable/Mythos 5.x: thinking always on, no temperature, no budget_tokens";
  capabilities = record default_capabilities {
    supports_temperature = false;
    reasoning = adaptive_thinking;
    context_window = some 1_000_000;
    max_output_tokens = some 128_000;
    notes = "thinking is always on" ∷ "temperature and budget_tokens are rejected" ∷ [];
  };
}

abbrev claude_opus_5_4_8_4_7_4_6 : CapabilityRule
claude_opus_5_4_8_4_7_4_6 = record {
  pattern = "^claude-opus-(5|4-8|4-7|4-6)";
  description = "Claude Opus 4.6+: adaptive thinking and effort, no temperature";
  capabilities = record default_capabilities {
    supports_temperature = false;
    reasoning = adaptive_thinking;
    context_window = some 1_000_000;
    max_output_tokens = some 128_000;
    notes = "budget_tokens was removed on this model" ∷ [];
  };
}

abbrev claude_sonnet_5_4_6 : CapabilityRule
claude_sonnet_5_4_6 = record {
  pattern = "^claude-sonnet-(5|4-6)";
  description = "Claude Sonnet 4.6+: adaptive thinking and effort, no temperature";
  capabilities = record default_capabilities {
    supports_temperature = false;
    reasoning = adaptive_thinking;
    context_window = some 1_000_000;
    max_output_tokens = some 128_000;
  };
}

abbrev claude_haiku_4_5 : CapabilityRule
claude_haiku_4_5 = record {
  pattern = "^claude-haiku-4-5";
  description = "Claude Haiku 4.5: budget_tokens style thinking, temperature allowed";
  capabilities = record default_capabilities {
    supports_temperature = true;
    reasoning = budget_tokens;
    context_window = some 200_000;
    max_output_tokens = some 64_000;
    notes = "effort is rejected on this model; thinking uses budget_tokens" ∷ [];
  };
}

abbrev claude : CapabilityRule
claude = record {
  pattern = "^claude-";
  description = "Older Claude models: budget_tokens style thinking";
  capabilities = record default_capabilities {
    reasoning = budget_tokens;
    context_window = some 200_000;
    max_output_tokens = some 8_192;
  };
}

abbrev o1_o3_o4 : CapabilityRule
o1_o3_o4 = record {
  pattern = "^(o1|o3|o4)(-|$)";
  description =
      "OpenAI o-series reasoning models: no temperature, max_completion_tokens, developer role";
  capabilities = record default_capabilities {
    supports_temperature = false;
    supports_system_prompt = true;
    system_role = "developer";
    max_tokens_param = max_completion_tokens;
    reasoning = effort;
    context_window = some 200_000;
    max_output_tokens = some 100_000;
    notes = "sampling parameters are rejected" ∷ "system role is 'developer'" ∷ [];
  };
}

abbrev gpt_5 : CapabilityRule
gpt_5 = record {
  pattern = "^gpt-5";
  description = "GPT-5 family: reasoning_effort, max_completion_tokens";
  capabilities = record default_capabilities {
    supports_temperature = false;
    max_tokens_param = max_completion_tokens;
    reasoning = effort;
    context_window = some 400_000;
    max_output_tokens = some 128_000;
  };
}

abbrev gpt_4o : CapabilityRule
gpt_4o = record {
  pattern = "^gpt-4o";
  description = "GPT-4o: conventional chat parameters";
  capabilities = record default_capabilities {
    context_window = some 128_000;
    max_output_tokens = some 16_384;
  };
}

abbrev gpt_4_1 : CapabilityRule
gpt_4_1 = record {
  pattern = "^gpt-4\\.1";
  description = "GPT-4.1: conventional chat parameters, long context";
  capabilities = record default_capabilities {
    context_window = some 1_047_576;
    max_output_tokens = some 32_768;
  };
}

abbrev gpt_4 : CapabilityRule
gpt_4 = record {
  pattern = "^gpt-4";
  description = "GPT-4: conventional chat parameters";
  capabilities = record default_capabilities {
    context_window = some 128_000;
    max_output_tokens = some 4_096;
  };
}

abbrev gpt_3_5 : CapabilityRule
gpt_3_5 = record {
  pattern = "^gpt-3\\.5";
  description = "GPT-3.5: conventional chat parameters, small context";
  capabilities = record default_capabilities {
    context_window = some 16_385;
    max_output_tokens = some 4_096;
  };
}

abbrev deepseek_reasoner_r1 : CapabilityRule
deepseek_reasoner_r1 = record {
  pattern = "deepseek-(reasoner|r1)";
  description = "DeepSeek reasoner: rejects sampling parameters";
  capabilities = record default_capabilities {
    supports_temperature = false;
    supports_json_mode = false;
    context_window = some 128_000;
    max_output_tokens = some 8_192;
    notes = "temperature, top_p and penalties are ignored or rejected" ∷ [];
  };
}

abbrev deepseek : CapabilityRule
deepseek = record {
  pattern = "^deepseek";
  description = "DeepSeek chat models";
  capabilities = record default_capabilities {
    context_window = some 128_000;
    max_output_tokens = some 8_192;
  };
}

abbrev qwen_qwq : CapabilityRule
qwen_qwq = record {
  pattern = "^(qwen|qwq)";
  description = "Qwen: thinking is toggled with enable_thinking";
  capabilities = record default_capabilities {
    reasoning = enable_thinking;
    context_window = some 131_072;
    max_output_tokens = some 8_192;
  };
}

abbrev glm : CapabilityRule
glm = record {
  pattern = "^glm";
  description = "GLM: thinking is toggled with a thinking.type object";
  capabilities = record default_capabilities {
    reasoning = thinking_type;
    context_window = some 128_000;
    max_output_tokens = some 8_192;
  };
}

abbrev magistral : CapabilityRule
magistral = record {
  pattern = "^magistral";
  description = "Magistral reasoning models: reduced parameter surface";
  capabilities = record default_capabilities {
    supports_json_mode = false;
    context_window = some 128_000;
    max_output_tokens = some 8_192;
  };
}

abbrev sonar : CapabilityRule
sonar = record {
  pattern = "^sonar";
  description = "Perplexity Sonar: search-backed, no JSON mode";
  capabilities = record default_capabilities {
    supports_json_mode = false;
    context_window = some 128_000;
    max_output_tokens = some 4_096;
  };
}

abbrev gemini : CapabilityRule
gemini = record {
  pattern = "^gemini-";
  description = "Gemini via the OpenAI compatibility shim";
  capabilities = record default_capabilities {
    context_window = some 1_000_000;
    max_output_tokens = some 8_192;
  };
}

abbrev llama_mixtral_mistral_gemma_phi_codellama : CapabilityRule
llama_mixtral_mistral_gemma_phi_codellama = record {
  pattern = "^(llama|mixtral|mistral|gemma|phi|codellama)";
  description = "Common open-weight families served locally or by inference vendors";
  capabilities = record default_capabilities {
    context_window = some 128_000;
    max_output_tokens = some 4_096;
  };
}

abbrev pub capability_rules : List CapabilityRule
capability_rules =
    claude_fable_mythos_5 ∷ claude_opus_5_4_8_4_7_4_6 ∷ claude_sonnet_5_4_6 ∷ claude_haiku_4_5
    ∷ claude ∷ o1_o3_o4 ∷ gpt_5 ∷ gpt_4o ∷ gpt_4_1 ∷ gpt_4 ∷ gpt_3_5 ∷ deepseek_reasoner_r1
    ∷ deepseek ∷ qwen_qwq ∷ glm ∷ magistral ∷ sonar ∷ gemini
    ∷ llama_mixtral_mistral_gemma_phi_codellama ∷ []
