-- ===== src/Services.antt =====
-- ecomm_modulith_cdk/Constructs: the containers of the application and its tools.
mod Ecomm
mod Rag
mod Mcp
mod Mail
mod MongoExpress
pub use Ecomm.{EcommProps, EcommService}
unfoldable pub use Ecomm.{ecomm_service}
pub use Rag.{RagProps, RagService}
unfoldable pub use Rag.{rag_service, dns_name, service_name}
pub use Mcp.{McpProps, McpService}
unfoldable pub use Mcp.{mcp_service}
pub use Mail.{MailProps}
unfoldable pub use Mail.{mail_service}
pub use MongoExpress.{MongoExpressProps}
unfoldable pub use MongoExpress.{mongo_express_service}
