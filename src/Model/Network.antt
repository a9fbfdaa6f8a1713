-- ===== src/Model/Network.antt =====
-- The parts of ServiceInfo and IngressInfo of pkg/model/network.go, and IngressInfo. The printed
-- port numbers are lists of bytes.
use kubeadapt_agent.Prelude.{ℕ, Option, List, String}
use kubeadapt_agent.Prelude.Int.{ℤ}
use kubeadapt_agent.GoMap.{GoMap}

pub record LoadBalancerIngress : Type 0 where
  pub ip : String
  pub hostname : String

pub record LoadBalancerInfo : Type 0 where
  pub ingress : List LoadBalancerIngress
  pub class : String
  pub aws_load_balancer_type : List ℕ
  pub aws_scheme : List ℕ
  pub aws_arn_annotation : List ℕ

pub record ServicePortInfo : Type 0 where
  pub name : String
  pub protocol : String
  pub port : ℤ
  pub target_port : String
  pub node_port : ℤ

pub record IngressPathInfo : Type 0 where
  pub path : String
  pub path_type : String
  pub backend_service : String
  pub backend_port : List ℕ

pub record IngressRuleInfo : Type 0 where
  pub host : String
  pub paths : List IngressPathInfo

pub record IngressTlsInfo : Type 0 where
  pub hosts : List String
  pub secret_name : String

pub record IngressBackendInfo : Type 0 where
  pub service_name : String
  pub service_port : List ℕ

pub record IngressInfo : Type 0 where
  pub name : String
  pub namespace : String
  pub ingress_class_name : String
  pub rules : List IngressRuleInfo
  pub tls : List IngressTlsInfo
  pub default_backend : Option IngressBackendInfo
  pub labels : GoMap String String
  pub annotations : GoMap (List ℕ) (List ℕ)
  pub creation_timestamp : ℤ
  pub load_balancer_hostnames : List String
