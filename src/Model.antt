-- ===== src/Model.antt =====
-- ecomm_modulith_cdk/Model/ai_model_stack.py: the language model on an EC2 instance.
mod Units
mod Scripts
mod Provisioning
mod Stack
pub mod Boot
pub mod Ready
pub mod Provisioned
pub mod Build
pub mod Downloads
mod Examples
pub use Units.{
  llama_build_unit, llama_download_unit, nomic_download_unit, llama_server_unit, nomic_server_unit,
}
pub use Scripts.{build_llama, download_llama_model, download_nomic_embed}
pub use Provisioning.{model_user_data}
pub use Stack.{AiModelStack}
unfoldable pub use Stack.{ai_model_stack, model_info}
