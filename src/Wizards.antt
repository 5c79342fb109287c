-- ===== src/Wizards.antt =====
-- The two wizards of frontend/components: provider-wizard.tsx and deployment/DeploymentWizard.tsx.
pub mod Deploy
pub mod DeployLaws
pub mod Provider
pub mod ProviderSteps
pub mod ProviderLaws
pub mod ProviderLate
pub mod Examples
